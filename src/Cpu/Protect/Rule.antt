-- ===== src/Cpu/Protect/Rule.antt =====
-- Invariants of the PMP registers and of their cache. Four ways to change them are left to be
-- looked at: a write of a register elsewhere, of a pmpcfg, of an unlocked pmpaddr, and a refresh.
use rvwasm.Base.{ℕ, Bool, true, false, ◌≡◌, arith, ◌-◌, refl, if-keeps, low, has, bit_and}
use rvwasm.Base.Arrays.{update}
use rvwasm.Cpu.Addr
use rvwasm.Cpu.Hart.{Hart, trace_trap, priv_s, priv_m, set_csr}
use rvwasm.Cpu.Pmp.{
  is_pmp_cfg_csr, is_pmp_addr_csr, merge_cfg, any_configured_from, pmp_entry_count, pmp_cfg, pmp_l,
  pmp_set_cfg_csr, pmp_set_addr_csr, refresh_pmp_active,
}
use rvwasm.Cpu.Csr.{elem, csr_write, set_pending, merge, sstatus_mask, sip_mask, legal_mstatus}
use rvwasm.Cpu.Trap.{delegated, note_trap, trap, enter_s, enter_m, mret, sret}
use rvwasm.Cpu.Invariant.Core.{Core, On, IsInvariant}

-- The arguments of `P` are the CSRs and the flags PMPActive and PMPChecked.
pub record IsProtected (P : (ℕ → ℕ) → Bool → Bool → Type 0) : Type 0 where
  pub far :
      {csr : ℕ → ℕ} {active checked : Bool} (a v : ℕ)
      → is_pmp_cfg_csr a ≡ false
      → is_pmp_addr_csr a ≡ false
      → P csr active checked
      → P (update csr a v) active checked
  pub refreshed :
      {csr : ℕ → ℕ} {active checked : Bool}
      → P csr active checked
      → P csr (any_configured_from csr pmp_entry_count 0) true
  pub configured :
      {csr : ℕ → ℕ} {active checked : Bool} (a v : ℕ)
      → is_pmp_cfg_csr a ≡ true
      → P csr active checked
      → let csr' = update csr a (merge_cfg 8 0 (csr a) v 0) in
        P csr' (any_configured_from csr' pmp_entry_count 0) true
  pub addressed :
      {csr : ℕ → ℕ} {active checked : Bool} (a v : ℕ)
      → is_pmp_addr_csr a ≡ true
      → has (pmp_cfg csr (a - Addr.csr_pmpaddr0)) pmp_l ≡ false
      → P csr active checked
      → P (update csr a v) active checked

abbrev pub OnPmp : ((ℕ → ℕ) → Bool → Bool → Type 0) → Core → Type 0
OnPmp P c = P c.csr c.pmp_active c.pmp_checked

module _ {S : Type 0} (P : (ℕ → ℕ) → Bool → Bool → Type 0) (k : IsProtected P) where
  pub enter_s-keeps :
      (h : Hart S) (cause tval : ℕ) (interrupt : Bool)
      → On (OnPmp P) h
      → On (OnPmp P) (enter_s h cause tval interrupt)
  unfolding enter_s is_pmp_cfg_csr is_pmp_addr_csr
  enter_s-keeps h cause tval interrupt q = k.far Addr.csr_mstatus _ refl refl (
      k.far Addr.csr_stval _ refl refl
        (k.far Addr.csr_scause _ refl refl (k.far Addr.csr_sepc _ refl refl q)))

  pub enter_m-keeps :
      (h : Hart S) (cause tval : ℕ) (interrupt : Bool)
      → On (OnPmp P) h
      → On (OnPmp P) (enter_m h cause tval interrupt)
  unfolding enter_m is_pmp_cfg_csr is_pmp_addr_csr
  enter_m-keeps h cause tval interrupt q = k.far Addr.csr_mstatus _ refl refl (
      k.far Addr.csr_mtval _ refl refl
        (k.far Addr.csr_mcause _ refl refl (k.far Addr.csr_mepc _ refl refl q)))

  trace_trap-keeps :
      (h : Hart S) (cause tval : ℕ) (interrupt : Bool) (target : ℕ)
      → On (OnPmp P) h
      → On (OnPmp P) (trace_trap h cause tval interrupt target)
  unfolding trace_trap
  trace_trap-keeps h cause tval interrupt target q = if-keeps (On (OnPmp P)) h.diag.trace q q

  trap-keeps :
      (h : Hart S) (cause tval : ℕ) (interrupt : Bool)
      → On (OnPmp P) h
      → On (OnPmp P) (trap h cause tval interrupt)
  unfolding trap
  trap-keeps h cause tval interrupt q =
      let noted = note_trap h cause tval interrupt in
      if-keeps (On (OnPmp P)) (delegated h cause interrupt)
        (enter_s-keeps (trace_trap noted cause tval interrupt priv_s) cause tval interrupt
          (trace_trap-keeps noted cause tval interrupt priv_s q))
        (enter_m-keeps (trace_trap noted cause tval interrupt priv_m) cause tval interrupt
          (trace_trap-keeps noted cause tval interrupt priv_m q))

  pmp_set_cfg_csr-keeps :
      (h : Hart S) (a v : ℕ)
      → is_pmp_cfg_csr a ≡ true
      → On (OnPmp P) h
      → On (OnPmp P) (pmp_set_cfg_csr h a v)
  unfolding pmp_set_cfg_csr refresh_pmp_active
  pmp_set_cfg_csr-keeps h a v e q = rw e (k.configured a v e q)

  pmp_set_addr_csr-keeps :
      (h : Hart S) (a v : ℕ)
      → is_pmp_addr_csr a ≡ true
      → On (OnPmp P) h
      → On (OnPmp P) (pmp_set_addr_csr h a v)
  unfolding pmp_set_addr_csr is_pmp_addr_csr
  pmp_set_addr_csr-keeps h a v e q = ground (
    arith,
    k.addressed {csr = h.csr} {active = h.pmp_active} {checked = h.pmp_checked} a (low v 56) e,
  )

  -- A CSR that has nothing to do with protection.
  far_csr :
      (h : Hart S) (a v : ℕ)
      → is_pmp_cfg_csr a ≡ false
      → is_pmp_addr_csr a ≡ false
      → On (OnPmp P) h
      → On (OnPmp P) (set_csr h a v)
  far_csr h a v n m q = k.far a v n m q

  csr_write-keeps : (h : Hart S) (a v : ℕ) → On (OnPmp P) h → On (OnPmp P) (csr_write h a v)
  unfolding csr_write elem is_pmp_cfg_csr is_pmp_addr_csr
  csr_write-keeps h a v q =
      let st = h.csr Addr.csr_mstatus in
      ground (
        arith,
        far_csr h Addr.csr_mstatus (merge st v sstatus_mask) refl refl q,
        far_csr h Addr.csr_mstatus (legal_mstatus v) refl refl q,
        far_csr h Addr.csr_senvcfg (bit_and v (h.csr Addr.csr_menvcfg)) refl refl q,
        far_csr (set_csr h Addr.csr_menvcfg v) Addr.csr_senvcfg (bit_and (h.csr Addr.csr_senvcfg) v)
            refl refl (far_csr h Addr.csr_menvcfg v refl refl q),
        far_csr h Addr.csr_mstateen0 0 refl refl q,
        far_csr h Addr.csr_mstateen1 0 refl refl q,
        far_csr h Addr.csr_mstateen2 0 refl refl q,
        far_csr h Addr.csr_mstateen3 0 refl refl q,
        far_csr h Addr.csr_mie (merge (h.csr Addr.csr_mie) v (h.csr Addr.csr_mideleg)) refl refl q,
        far_csr h Addr.csr_mip (merge (h.csr Addr.csr_mip) v sip_mask) refl refl q,
        far_csr h Addr.csr_mip v refl refl q,
        far_csr h a v,
        pmp_set_cfg_csr-keeps h a v,
        pmp_set_addr_csr-keeps h a v,
      )

  pub protected_invariant : IsInvariant S (OnPmp P)
  unfolding set_pending refresh_pmp_active mret sret is_pmp_cfg_csr is_pmp_addr_csr
  protected_invariant = record {
    keeps_pending = λ h mask level q. k.far Addr.csr_mip _ refl refl q;
    keeps_refresh = λ h q. k.refreshed q;
    keeps_trap = trap-keeps;
    keeps_csr_write = csr_write-keeps;
    keeps_mret = λ h q. k.far Addr.csr_mstatus _ refl refl q;
    keeps_sret = λ h q. k.far Addr.csr_mstatus _ refl refl q;
  }
