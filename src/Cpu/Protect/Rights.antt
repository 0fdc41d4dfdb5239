-- ===== src/Cpu/Protect/Rights.antt =====
-- Whom the entries of internal/cpu/pmp.go restrict.
use rvwasm.Base.{
  ℕ, zero, suc, ◌+◌, Bool, true, false, ◌≡◌, refl, ◌∙◌, arith, ◌==◌, ◌||◌, not, has, ltb, leb,
  Option, none, some,
}
use rvwasm.Cpu.Access.{AccessKind}
use rvwasm.Cpu.Hart.{Hart, priv_m}
use rvwasm.Cpu.Pmp.{
  pmp_l, pmp_cfg, pmp_range, entry_permits, permits_entry, permits_from, pmp_permits,
  pmp_entry_count,
}

-- The byte at `pa` lies in the range.
abbrev pub in_range : ℕ → Option (ℕ × ℕ) → Bool
in_range pa none = false
in_range pa (some (lo, hi)) = not (ltb pa lo || leb hi pa)

entry-machine :
    (r : Option (ℕ × ℕ)) (cfg pa : ℕ) (k : AccessKind) (skipped passed : Bool)
    → has cfg pmp_l ≡ false
    → skipped ≡ true
    → passed ≡ true
    → permits_entry r cfg pa k priv_m skipped passed ≡ true
unfolding permits_entry entry_permits
entry-machine none cfg pa k skipped passed unlocked s t = s
entry-machine (some (lo, hi)) cfg pa k skipped passed unlocked s t = ground (arith, unlocked, t)

entry-outside :
    (r : Option (ℕ × ℕ)) (cfg pa : ℕ) (k : AccessKind) (priv : ℕ) (skipped passed : Bool)
    → in_range pa r ≡ false
    → skipped ≡ passed
    → permits_entry r cfg pa k priv skipped passed ≡ passed
unfolding permits_entry
entry-outside none cfg pa k priv skipped passed out e = e
entry-outside (some (lo, hi)) cfg pa k priv skipped passed out e = ground (arith, out)

abbrev has_range : Option (ℕ × ℕ) → Bool
has_range none = false
has_range (some r) = true

denied_round :
    (r : Option (ℕ × ℕ)) (cfg pa : ℕ) (k : AccessKind) (priv : ℕ) (skipped passed more : Bool)
    → in_range pa r ≡ false
    → has_range r || more ≡ true
    → (more ≡ true → skipped ≡ false)
    → passed ≡ false
    → permits_entry r cfg pa k priv skipped passed ≡ false
unfolding permits_entry
denied_round none cfg pa k priv skipped passed more out e s t = s e
denied_round (some (lo, hi)) cfg pa k priv skipped passed more out e s t = ground (arith, out, t)

module _ {S : Type 0} where
  permits_from-machine :
      (h : Hart S) (n i : ℕ) (on : Bool) (pa : ℕ) (k : AccessKind)
      → ((j : ℕ) → has (pmp_cfg h.csr j) pmp_l ≡ false)
      → permits_from h n i on pa k priv_m ≡ true
  unfolding permits_from
  permits_from-machine h zero i on pa k unlocked = ground arith
  permits_from-machine h (suc n) i on pa k unlocked =
      entry-machine (pmp_range h i) (pmp_cfg h.csr i) pa k _ _ (unlocked i)
        (permits_from-machine h n (i + 1) on pa k unlocked)
        (permits_from-machine h n (i + 1) true pa k unlocked)

  -- When no PMP entry is locked, an access of any kind to any byte is permitted in M-mode.
  pub pmp_permits-machine :
      (h : Hart S) (pa : ℕ) (k : AccessKind)
      → ((j : ℕ) → has (pmp_cfg h.csr j) pmp_l ≡ false)
      → pmp_permits h pa k priv_m ≡ true
  unfolding pmp_permits
  pmp_permits-machine h pa k unlocked = permits_from-machine h pmp_entry_count 0 false pa k unlocked

  -- Once an entry is on, a byte that no later entry has.
  permits_from-unmatched :
      (h : Hart S) (n i pa : ℕ) (k : AccessKind) (priv : ℕ)
      → priv == priv_m ≡ false
      → ((j : ℕ) → in_range pa (pmp_range h j) ≡ false)
      → permits_from h n i true pa k priv ≡ false
  unfolding permits_from
  permits_from-unmatched h zero i pa k priv low out = rw low refl
  permits_from-unmatched h (suc n) i pa k priv low out =
      entry-outside (pmp_range h i) (pmp_cfg h.csr i) pa k priv _ _ (out i) refl
      ∙ permits_from-unmatched h n (i + 1) pa k priv low out

  -- Some entry from `i` on, of `n`, has a range.
  unfoldable pub any_range : Hart S → ℕ → ℕ → Bool
  any_range h zero i = false
  any_range h (suc n) i = has_range (pmp_range h i) || any_range h n (i + 1)

  permits_from-denied :
      (h : Hart S) (n i pa : ℕ) (k : AccessKind) (priv : ℕ)
      → priv == priv_m ≡ false
      → ((j : ℕ) → in_range pa (pmp_range h j) ≡ false)
      → any_range h n i ≡ true
      → permits_from h n i false pa k priv ≡ false
  unfolding permits_from any_range
  permits_from-denied h zero i pa k priv low out e = absurd (ground (arith, e))
  permits_from-denied h (suc n) i pa k priv low out e =
      denied_round (pmp_range h i) (pmp_cfg h.csr i) pa k priv _ _ (any_range h n (i + 1)) (out i) e
        (permits_from-denied h n (i + 1) pa k priv low out)
        (permits_from-unmatched h n (i + 1) pa k priv low out)

  -- When some PMP entry has a range and no range has the byte, an access to the byte in any mode
  -- but M is not permitted.
  pub pmp_permits-denied :
      (h : Hart S) (pa : ℕ) (k : AccessKind) (priv : ℕ)
      → priv == priv_m ≡ false
      → ((j : ℕ) → in_range pa (pmp_range h j) ≡ false)
      → any_range h pmp_entry_count 0 ≡ true
      → pmp_permits h pa k priv ≡ false
  unfolding pmp_permits
  pmp_permits-denied h pa k priv low out e =
      permits_from-denied h pmp_entry_count 0 pa k priv low out e
