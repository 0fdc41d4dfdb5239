-- ===== src/Cpu/Protect/Cache.antt =====
-- The flags PMPActive and PMPChecked and the scan of the PMP entries (internal/cpu/pmp.go).
use rvwasm.Base.{
  add64, ℕ, zero, suc, Bool, true, false, ◌≡◌, refl, sym, ◌∙◌, arith, ◌+◌, ◌||◌, none,
}
use rvwasm.Base.Arrays.{update}
use rvwasm.Cpu.Access.{AccessKind}
use rvwasm.Cpu.Hart.{Hart, Platform}
use rvwasm.Cpu.Pmp.{
  is_pmp_cfg_csr, is_pmp_addr_csr, any_configured_from, pmp_entry_count, pmp_cfg, pmp_mode,
  pmp_range, permits_entry, pmp_cfg_csr_for_entry, permits_from, pmp_permits, check_bytes,
  check_pmp, cached_pmp, refresh_pmp_active,
}
use rvwasm.Cpu.Step.{run, reset}
use rvwasm.Cpu.Csr.{init_csr}
use rvwasm.Cpu.Invariant.Core.{HandlerKeeps}
use rvwasm.Cpu.Invariant.Step.{run-keeps}
use rvwasm.Cpu.Protect.Rule.{IsProtected, OnPmp, protected_invariant}

-- A write of another register leaves every entry's configuration.
pub pmp_cfg-update :
    (csr : ℕ → ℕ) (a v i : ℕ)
    → is_pmp_cfg_csr a ≡ false
    → pmp_cfg (update csr a v) i ≡ pmp_cfg csr i
unfolding pmp_cfg is_pmp_cfg_csr pmp_cfg_csr_for_entry
pmp_cfg-update csr a v i n = ground arith

any_configured-update :
    (csr : ℕ → ℕ) (a v n i : ℕ)
    → is_pmp_cfg_csr a ≡ false
    → any_configured_from (update csr a v) n i ≡ any_configured_from csr n i
unfolding any_configured_from
any_configured-update csr a v zero i far = refl
any_configured-update csr a v (suc n) i far =
    rw (pmp_cfg-update csr a v i far, any_configured-update csr a v n (i + 1) far) refl

-- The flags, once computed, are what a scan of the registers finds.
abbrev pub IsCached : (ℕ → ℕ) → Bool → Bool → Type 0
IsCached csr active checked =
    active || checked ≡ true → active ≡ any_configured_from csr pmp_entry_count 0

IsCached-IsProtected : IsProtected IsCached
unfolding is_pmp_cfg_csr is_pmp_addr_csr
IsCached-IsProtected = record {
  far = λ {csr} a v n m q e. q e ∙ sym (any_configured-update csr a v pmp_entry_count 0 n);
  refreshed = λ q e. refl;
  configured = λ a v c q e. refl;
  addressed = λ {csr} a v c l q e.
      q e ∙ sym (any_configured-update csr a v pmp_entry_count 0 (ground arith));
}

module _ {S : Type 0} where
  pub pmp_range-off : (h : Hart S) (i : ℕ) → pmp_mode (pmp_cfg h.csr i) ≡ 0 → pmp_range h i ≡ none
  unfolding pmp_range
  pmp_range-off h i off = rw off refl

  -- A scan that finds nothing on, and the loop of pmpPermits over the same entries.
  permits-off :
      (h : Hart S) (n i pa : ℕ) (k : AccessKind) (priv : ℕ)
      → any_configured_from h.csr n i ≡ false
      → permits_from h n i false pa k priv ≡ true
  unfolding any_configured_from permits_from permits_entry
  permits-off h zero i pa k priv off = refl
  permits-off h (suc n) i pa k priv off =
      let rest = permits-off h n (i + 1) pa k priv in
      let here = pmp_range-off h i in
      let off_here : pmp_mode (pmp_cfg h.csr i) ≡ 0 = ground (arith, off) in
      rw (here off_here) (rest (ground (arith, off)))

  check_bytes-off :
      (h : Hart S) (n i pa : ℕ) (k : AccessKind) (priv : ℕ)
      → any_configured_from h.csr pmp_entry_count 0 ≡ false
      → check_bytes h n i pa k priv ≡ none
  unfolding check_bytes pmp_permits
  check_bytes-off h zero i pa k priv off = refl
  check_bytes-off h (suc n) i pa k priv off =
      rw (permits-off h pmp_entry_count 0 (add64 pa i) k priv off)
        (check_bytes-off h n (i + 1) pa k priv off)

  pmp_range-refresh : (h : Hart S) (i : ℕ) → pmp_range (refresh_pmp_active h) i ≡ pmp_range h i
  unfolding pmp_range refresh_pmp_active
  pmp_range-refresh h i = refl

  cfg-refresh : (h : Hart S) (i : ℕ) → pmp_cfg (refresh_pmp_active h).csr i ≡ pmp_cfg h.csr i
  unfolding refresh_pmp_active
  cfg-refresh h i = refl

  permits-refresh :
      (h : Hart S) (n i : ℕ) (on : Bool) (pa : ℕ) (k : AccessKind) (priv : ℕ)
      → permits_from (refresh_pmp_active h) n i on pa k priv ≡ permits_from h n i on pa k priv
  unfolding permits_from
  permits-refresh h zero i on pa k priv = refl
  permits-refresh h (suc n) i on pa k priv =
      rw
        (
          pmp_range-refresh h i,
          cfg-refresh h i,
          permits-refresh h n (i + 1) on pa k priv,
          permits-refresh h n (i + 1) true pa k priv,
        )
        refl

  check_bytes-refresh :
      (h : Hart S) (n i pa : ℕ) (k : AccessKind) (priv : ℕ)
      → check_bytes (refresh_pmp_active h) n i pa k priv ≡ check_bytes h n i pa k priv
  unfolding check_bytes pmp_permits
  check_bytes-refresh h zero i pa k priv = refl
  check_bytes-refresh h (suc n) i pa k priv =
      rw
        (
          permits-refresh h pmp_entry_count 0 false (add64 pa i) k priv,
          check_bytes-refresh h n (i + 1) pa k priv,
        )
        refl

  -- When the cached flags of a hart are right, the PMP check with the cache gives for every access
  -- the error, or none, that checking each of its bytes against all entries gives.
  pub check_pmp-check_bytes :
      (h : Hart S) (pa size : ℕ) (k : AccessKind) (priv : ℕ)
      → IsCached h.csr h.pmp_active h.pmp_checked
      → (check_pmp h pa size k priv).0 ≡ check_bytes h size 0 pa k priv
  unfolding check_pmp cached_pmp refresh_pmp_active
  check_pmp-check_bytes h pa size k priv q =
      ground (arith, q, check_bytes-refresh h size 0 pa k priv, check_bytes-off h size 0 pa k priv)

  -- After any number of steps from a reset, if PMPActive or PMPChecked is set then PMPActive says
  -- exactly whether some PMP entry is configured; an SBI handler, where there is one, is asked to
  -- keep this.
  pub run-IsCached :
      (p : Platform S)
      → HandlerKeeps (OnPmp IsCached) p
      → (n : ℕ) (h : Hart S) (entry dtb : ℕ)
      → let t = (run p n (reset h entry dtb)).0 in IsCached t.csr t.pmp_active t.pmp_checked
  run-IsCached p kept n h entry dtb =
      run-keeps (OnPmp IsCached) (protected_invariant IsCached IsCached-IsProtected) p kept n
        (reset h entry dtb) (unfold reset init_csr in λ e. ground (arith, e))
