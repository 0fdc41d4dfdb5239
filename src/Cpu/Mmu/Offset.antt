-- ===== src/Cpu/Mmu/Offset.antt =====
-- What a translation of an address can answer (`translate` in internal/cpu/mmu.go).
use rvwasm.Base.{
  ℕ, zero, suc, ◌+◌, ◌*◌, ◌^◌, ◌<◌, ◌⊎◌, inl, inr, ◌≡◌, refl, arith, low, ◌>>>◌, bit_or,
}
use rvwasm.Base.Bits.{bit_or-lt}
use rvwasm.Cpu.Addr
use rvwasm.Cpu.Hart.{Hart, Platform}
use rvwasm.Cpu.Access.{AccessKind, AccessError, Result, ok, err, Action, or_fail, pure, ◌>>=◌}
use rvwasm.Cpu.Mmu.{
  page_size, effective_priv, walk_fault, leaf_ppn, vpn, set_used, use_leaf, use_entry, walk,
  translate, bus_read, bus_write, needed,
}

-- A page number has 44 bits.
pub leaf_ppn-lt : (level pte vaddr : ℕ) → leaf_ppn level pte vaddr < 2 ^ 44
unfolding leaf_ppn vpn
leaf_ppn-lt level pte vaddr =
    let ppn2 = low (pte >>> 28) 26 * 2 ^ 18 in
    let ppn1 = low (pte >>> 19) 9 * 2 ^ 9 in
    let ppn0 = low (pte >>> 10) 9 in
    let vpn1 = low (vaddr >>> 21) 9 * 2 ^ 9 in
    let vpn0 = low (vaddr >>> 12) 9 in
    ground (
      arith,
      bit_or-lt 44 ppn2 vpn1 (omega arith) (omega arith),
      bit_or-lt 44 ppn2 ppn1 (omega arith) (omega arith),
      bit_or-lt 44 (bit_or ppn2 vpn1) vpn0,
      bit_or-lt 44 (bit_or ppn2 ppn1) vpn0,
      bit_or-lt 44 (bit_or ppn2 ppn1) ppn0,
    )

-- What an action answers, whatever the hart: a value with `V` or an error with `E`.
unfoldable AllResult : {A : Type 0} → (A → Type 0) → (AccessError → Type 0) → Result A → Type 0
AllResult V E (ok a) = V a
AllResult V E (err e) = E e

module _ {S : Type 0} where
  abbrev Answers : {A : Type 0} → (A → Type 0) → (AccessError → Type 0) → Action S A → Type 0
  Answers V E m = (h : Hart S) → AllResult V E (m h).0

  >>=-Answers :
      {A B : Type 0} (V : A → Type 0) (W : B → Type 0) (E : AccessError → Type 0) (m : Action S A)
      (f : A → Action S B)
      → Answers V E m
      → ((a : A) → V a → Answers W E (f a))
      → Answers W E (m >>= f)
  unfolding AllResult
  >>=-Answers {A} {B} V W E m f km kf h = go (m h).0 (m h).1 (km h)
    where
      go :
          (r : Result A) (h' : Hart S)
          → AllResult V E r
          → AllResult W E
              (elim r as (λ _. Result B × Hart S) [ ok a ↦ f a h' | err e ↦ (err e, h') ]).0
      go (ok a) h' q = kf a q h'
      go (err e) h' q = q

  or_fail-Answers :
      {A : Type 0} (E : AccessError → Type 0) (m : Action S A) (e : AccessError)
      → E e
      → Answers (λ _. Unit {0}) E (or_fail m e)
  unfolding AllResult
  or_fail-Answers {A} E m e k h = go (m h).0 (m h).1
    where
      go :
          (r : Result A) (h' : Hart S)
          → AllResult
              (λ _. Unit {0})
              E
              (elim r as (λ _. Result A × Hart S) [ ok a ↦ (ok a, h') | err _ ↦ (err e, h') ]).0
      go (ok a) h' = tt
      go (err _) h' = k

-- An answer is an address with the offset of `vaddr` in its page, and the fault that is raised is
-- the page fault of the access.
abbrev IsPlaced : ℕ → ℕ → Type 0
IsPlaced vaddr pa = (low pa 12 ≡ low vaddr 12) × (pa < 2 ^ 56)

abbrev IsWalkFault : ℕ → AccessKind → AccessError → Type 0
IsWalkFault vaddr k e = e ≡ walk_fault vaddr k

fault-Answers :
    (vaddr : ℕ) (k : AccessKind)
    → AllResult (IsPlaced vaddr) (IsWalkFault vaddr k) (err (walk_fault vaddr k))
unfolding AllResult
fault-Answers vaddr k = refl

-- What a translation answers: an address or the fault of the access.
unfoldable pub IsTranslation : ℕ → AccessKind → Result ℕ → Type 0
IsTranslation vaddr k (ok pa) = (low pa 12 ≡ low vaddr 12) × ((pa < 2 ^ 56) ⊎ (pa ≡ vaddr))
IsTranslation vaddr k (err e) = e ≡ walk_fault vaddr k

module _ {S : Type 0} (p : Platform S) where
  set_used-Answers :
      (vaddr : ℕ) (k : AccessKind) (pte_addr pte : ℕ)
      → Answers (λ _. Unit {0}) (IsWalkFault vaddr k) (set_used p vaddr k pte_addr pte)
  unfolding set_used
  set_used-Answers vaddr k pte_addr pte h =
      let used = bit_or pte (needed k) in
      let V : ℕ → Type 0 = λ _. Unit {0} in
      let used_already : AllResult V (IsWalkFault vaddr k) (ok pte) = unfold AllResult in tt in
      ground (
        arith,
        used_already,
        >>=-Answers V V (IsWalkFault vaddr k)
            (or_fail (bus_write p pte_addr 8 used) (walk_fault vaddr k)) (λ _. pure used)
            (or_fail-Answers (IsWalkFault vaddr k) (bus_write p pte_addr 8 used)
              (walk_fault vaddr k) refl)
            (λ _ _ _. unfold AllResult in tt) h,
      )

  use_leaf-Answers :
      (vaddr : ℕ) (k : AccessKind) (priv level pte_addr pte : ℕ)
      → Answers (IsPlaced vaddr) (IsWalkFault vaddr k) (use_leaf p vaddr k priv level pte_addr pte)
  unfolding use_leaf
  use_leaf-Answers vaddr k priv level pte_addr pte h = ground (
    arith,
    fault-Answers vaddr k,
    >>=-Answers (λ _. Unit {0}) (IsPlaced vaddr) (IsWalkFault vaddr k)
        (set_used p vaddr k pte_addr pte)
        (λ used. pure (leaf_ppn level used vaddr * page_size + low vaddr 12))
        (set_used-Answers vaddr k pte_addr pte)
        (λ used _ _. unfold AllResult in (omega arith, omega (arith, leaf_ppn-lt level used vaddr)))
        h,
  )

  use_entry-Answers :
      (vaddr : ℕ) (k : AccessKind) (priv level pte_addr pte : ℕ) (below : Action S ℕ)
      → Answers (IsPlaced vaddr) (IsWalkFault vaddr k) below
      → Answers
          (IsPlaced vaddr)
          (IsWalkFault vaddr k)
          (use_entry p vaddr k priv level pte_addr pte below)
  unfolding use_entry
  use_entry-Answers vaddr k priv level pte_addr pte below q h =
      ground (arith, fault-Answers vaddr k, q h, use_leaf-Answers vaddr k priv level pte_addr pte h)

  walk-Answers :
      (n vaddr : ℕ) (k : AccessKind) (priv pt_addr : ℕ)
      → Answers (IsPlaced vaddr) (IsWalkFault vaddr k) (walk p n vaddr k priv pt_addr)
  unfolding walk
  walk-Answers zero vaddr k priv pt_addr h = fault-Answers vaddr k
  walk-Answers (suc level) vaddr k priv pt_addr h =
      let pte_addr = pt_addr + vpn vaddr level * 8 in
      let descend = λ (pte : ℕ). walk p level vaddr k priv (low (pte >>> 10) 44 * page_size) in
      >>=-Answers (λ _. Unit {0}) (IsPlaced vaddr) (IsWalkFault vaddr k)
        (or_fail (bus_read p pte_addr 8) (walk_fault vaddr k))
        (λ pte. use_entry p vaddr k priv level pte_addr pte (descend pte))
        (or_fail-Answers (IsWalkFault vaddr k) (bus_read p pte_addr 8) (walk_fault vaddr k) refl)
        (λ pte _.
          use_entry-Answers vaddr k priv level pte_addr pte (descend pte)
            (walk-Answers level vaddr k priv (low (pte >>> 10) 44 * page_size)))
        h

  placed :
      (vaddr : ℕ) (k : AccessKind) (r : Result ℕ)
      → AllResult (IsPlaced vaddr) (IsWalkFault vaddr k) r
      → IsTranslation vaddr k r
  unfolding AllResult IsTranslation
  placed vaddr k (ok pa) q = (q.0, inl q.1)
  placed vaddr k (err e) q = q

  -- For any bus, hart, address and kind of access, a translation either answers an address with
  -- the page offset of the virtual one that is below 2^56 or is the virtual address itself, or it
  -- fails with the page fault of that kind of access at that virtual address and with no other
  -- error.
  pub translate-IsTranslation :
      (vaddr : ℕ) (k : AccessKind) (h : Hart S) → IsTranslation vaddr k (translate p vaddr k h).0
  unfolding translate
  translate-IsTranslation vaddr k h =
      let walked =
        walk-Answers 3 vaddr k (effective_priv h k) (low (h.csr Addr.csr_satp) 44 * page_size) h in
      let same : IsTranslation vaddr k (ok vaddr) = unfold IsTranslation in (refl, inr refl) in
      let fault : IsTranslation vaddr k (err (walk_fault vaddr k)) = unfold IsTranslation in refl in
      ground (arith, same, fault, placed vaddr k _ walked)
