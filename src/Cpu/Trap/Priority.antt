-- ===== src/Cpu/Trap/Priority.antt =====
-- Which interrupt a step takes (`checkInterrupt` in internal/cpu/trap.go).
use rvwasm.Base.{
  ℕ, Bool, true, false, ◌≡◌, refl, List, [], ◌∷◌, ◌++◌, arith, ◌==◌, ◌<◌, ◌⊎◌, inl, inr, Bool-cases,
  ap, min, bit_and, ltb, ◌&&◌, ◌||◌, if◌then◌else◌,
}
use rvwasm.Base.Bits.{bit, bit-bit_and, bit-lt, bit-zero, has-pow}
use rvwasm.Cpu.Addr
use rvwasm.Cpu.Hart.{Hart}
use rvwasm.Cpu.Trap.{deliverable, trap, take_first, check_interrupt}

-- Whether interrupts for a mode are on: below the mode they are, in it the bit of mstatus says.
abbrev IsOn : {S : Type 0} → Hart S → ℕ → ℕ → Type 0
IsOn h mode enable = (h.mode < mode) ⊎ (h.mode ≡ mode) × (bit (h.csr Addr.csr_mstatus) enable ≡ 1)

-- An interrupt may be taken: it is pending and enabled, and if it is delegated then interrupts for
-- S-mode (mode 1, SIE is bit 1) are on, if not those for M-mode (mode 3, MIE is bit 3).
unfoldable pub IsTakable : {S : Type 0} → Hart S → ℕ → Type 0
IsTakable h c =
    (bit (h.csr Addr.csr_mip) c ≡ 1)
    × (bit (h.csr Addr.csr_mie) c ≡ 1)
    × ((bit (h.csr Addr.csr_mideleg) c ≡ 1) × IsOn h 1 1
        ⊎ (bit (h.csr Addr.csr_mideleg) c ≡ 0) × IsOn h 3 3)

-- None of these may be taken.
unfoldable pub AreBlocked : {S : Type 0} → Hart S → List ℕ → Type 0
AreBlocked h [] = Unit
AreBlocked h (c ∷ cs) = ¬ (IsTakable h c) × AreBlocked h cs

-- The test of the code on bits, and what it says of them.
allowed : ℕ → ℕ → ℕ → ℕ → ℕ → ℕ → Bool
allowed p e d mode s m =
    (min p e == 1)
    && (if d == 1 then ltb mode 1 || mode == 1 && s == 1 else ltb mode 3 || mode == 3 && m == 1)

allowed-cases :
    (p e d mode s m : ℕ)
    → p < 2
    → e < 2
    → d < 2
    → let Takable =
        (p ≡ 1)
        × (e ≡ 1)
        × ((d ≡ 1) × ((mode < 1) ⊎ (mode ≡ 1) × (s ≡ 1))
            ⊎ (d ≡ 0) × ((mode < 3) ⊎ (mode ≡ 3) × (m ≡ 1))) in
      (allowed p e d mode s m ≡ true) × Takable ⊎ (allowed p e d mode s m ≡ false) × ¬ Takable
unfolding allowed
allowed-cases p e d mode s m a b c = ground arith

module _ {S : Type 0} (h : Hart S) where
  deliverable-allowed :
      (c : ℕ)
      → let st = h.csr Addr.csr_mstatus in
        deliverable h c
        ≡ allowed
            (bit (h.csr Addr.csr_mip) c)
            (bit (h.csr Addr.csr_mie) c)
            (bit (h.csr Addr.csr_mideleg) c)
            h.mode
            (bit st 1)
            (bit st 3)
  unfolding deliverable allowed
  deliverable-allowed c =
      let st = h.csr Addr.csr_mstatus in
      rw
        (
          has-pow c (bit_and (h.csr Addr.csr_mip) (h.csr Addr.csr_mie)),
          bit-bit_and (h.csr Addr.csr_mip) (h.csr Addr.csr_mie) c,
          has-pow c (h.csr Addr.csr_mideleg),
          has-pow 1 st,
          has-pow 3 st,
        )
        refl

  deliverable-cases :
      (c : ℕ)
      → (deliverable h c ≡ true) × IsTakable h c ⊎ (deliverable h c ≡ false) × ¬ (IsTakable h c)
  unfolding IsTakable
  deliverable-cases c =
      let st = h.csr Addr.csr_mstatus in
      rw (deliverable-allowed c) (
        allowed-cases (bit (h.csr Addr.csr_mip) c) (bit (h.csr Addr.csr_mie) c)
          (bit (h.csr Addr.csr_mideleg) c) h.mode (bit st 1) (bit st 3) (bit-lt _ c) (bit-lt _ c)
          (bit-lt _ c))

  -- Either the first of these that may be taken is, or none may and none is.
  unfoldable pub IsFirst : List ℕ → Hart S × Bool → Type 0
  IsFirst order r =
      ((before : List ℕ) × (c : ℕ) × (after : List ℕ) × (order ≡ before ++ c ∷ after)
        × AreBlocked h before
        × IsTakable h c
        × (r ≡ (trap h c 0 true, true)))
      ⊎ AreBlocked h order × (r ≡ (h, false))

  take_first-IsFirst : (order : List ℕ) → IsFirst order (take_first h order)
  unfolding take_first IsFirst AreBlocked
  take_first-IsFirst [] = inr (tt, refl)
  take_first-IsFirst (c ∷ order) = elim (deliverable-cases c) [
    | inl (e, t) ↦ rw e (inl ([], c, order, refl, tt, t, refl))
    | inr (e, n) ↦ rw e (elim (take_first-IsFirst order) [
      | inl (before, c', after, o, b, t, r) ↦
          inl (c ∷ before, c', after, ap (λ (l : List ℕ). c ∷ l) o, (n, b), t, r)
      | inr (b, r) ↦ inr ((n, b), r)
    ])
  ]

  -- With nothing pending and enabled no interrupt may be taken.
  idle : bit_and (h.csr Addr.csr_mip) (h.csr Addr.csr_mie) == 0 ≡ true → (c : ℕ) → ¬ (IsTakable h c)
  unfolding IsTakable
  idle e c (p, q, r) =
      let z : bit_and (h.csr Addr.csr_mip) (h.csr Addr.csr_mie) ≡ 0 = ground (arith, e) in
      omega (
        arith,
        p,
        q,
        ap (λ (t : ℕ). bit t c) z,
        bit-zero c,
        bit-bit_and (h.csr Addr.csr_mip) (h.csr Addr.csr_mie) c,
      )

  all-AreBlocked : ((c : ℕ) → ¬ (IsTakable h c)) → (cs : List ℕ) → AreBlocked h cs
  unfolding AreBlocked
  all-AreBlocked n [] = tt
  all-AreBlocked n (c ∷ cs) = (n c, all-AreBlocked n cs)

  -- The check of interrupts looks at the causes 11, 3, 7, 9, 1, 5 in this order. Either it takes
  -- the first of them that is pending, enabled, and on in the mode it is for (delegated: below
  -- S-mode or in it with SIE; not delegated: below M-mode or in it with MIE), and those before it
  -- are not; or none of the six is, and it leaves the hart as it is and takes none.
  pub check_interrupt-IsFirst : IsFirst (11 ∷ 3 ∷ 7 ∷ 9 ∷ 1 ∷ 5 ∷ []) (check_interrupt h)
  unfolding check_interrupt IsFirst AreBlocked
  check_interrupt-IsFirst =
      elim (Bool-cases (bit_and (h.csr Addr.csr_mip) (h.csr Addr.csr_mie) == 0)) [
        | inl e ↦ rw e (inr (all-AreBlocked (idle e) (11 ∷ 3 ∷ 7 ∷ 9 ∷ 1 ∷ 5 ∷ []), refl))
        | inr e ↦ rw e (take_first-IsFirst (11 ∷ 3 ∷ 7 ∷ 9 ∷ 1 ∷ 5 ∷ []))
      ]

  -- Interrupts are off: in M-mode with MIE clear, or in S-mode with SIE clear while every interrupt
  -- that is pending is delegated.
  unfoldable pub AreOff : Type 0
  AreOff =
      (h.mode ≡ 3) × (bit (h.csr Addr.csr_mstatus) 3 ≡ 0)
      ⊎ (h.mode ≡ 1)
        × (bit (h.csr Addr.csr_mstatus) 1 ≡ 0)
        × ((c : ℕ) → bit (h.csr Addr.csr_mip) c ≡ 1 → bit (h.csr Addr.csr_mideleg) c ≡ 1)

  off : AreOff → (c : ℕ) → ¬ (IsTakable h c)
  unfolding AreOff IsTakable
  off (inl (m, e)) c t = ground (arith, m, e, t)
  off (inr (m, e, all)) c (p, q, r) = let d = all c p in ground (arith, m, e, d, r)

  -- In M-mode with MIE clear no interrupt is taken, whatever is pending; nor is one in S-mode with
  -- SIE clear when every pending interrupt is delegated. The hart stays as it is.
  pub check_interrupt-masked : AreOff → check_interrupt h ≡ (h, false)
  unfolding IsFirst
  check_interrupt-masked o = elim check_interrupt-IsFirst [
    | inl (before, c, after, split, b, t, r) ↦ absurd (off o c t)
    | inr (b, r) ↦ r
  ]
