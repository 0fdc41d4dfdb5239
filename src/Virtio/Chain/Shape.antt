-- ===== src/Virtio/Chain/Shape.antt =====
-- The shape of the descriptor chains that `readChain` accepts.
use rvwasm.Base.{
  ℕ, zero, suc, ◌+◌, ◌*◌, ◌/◌, ◌%◌, ◌^◌, ◌≤◌, ◌<◌, max, true, false, not, ◌||◌, List, [], ◌∷◌, ◌++◌,
  ◌≡◌, refl, arith, ltb, leb, ◌==◌, if◌then◌else◌, if-keeps, Bool-cases, inl, inr, add64, u16, u32,
}
use rvwasm.Base.Arrays.{length}
use rvwasm.Cpu.Csr.{elem}
use rvwasm.Virtio.Guest.{Memory, ChainError, Answer, ok, err, Guest, pure, read32}
use rvwasm.Virtio.Guest.Holds.{Holds, fail-Holds, pure-Holds, and_then-Holds, any-Holds}
use rvwasm.Virtio.Chain.{
  VirtqDesc, goes_on, is_indirect, read_desc_at, walk_chain, read_table, read_indirect_chain,
  first_indirect, read_direct_chain, read_chain,
}

-- Each descriptor but the last goes on, the last does not; none of them is indirect, and their
-- lengths fit `uint32`.
unfoldable pub IsChain : List VirtqDesc → Type 0
IsChain [] = ⊥
IsChain (d ∷ []) = (goes_on d ≡ false) × (is_indirect d ≡ false) × (d.len < 2 ^ 32)
IsChain (d ∷ e ∷ ds) =
    (goes_on d ≡ true) × (is_indirect d ≡ false) × (d.len < 2 ^ 32) × IsChain (e ∷ ds)

unfoldable Linked : List VirtqDesc → Type 0
Linked [] = Unit
Linked (d ∷ ds) = (goes_on d ≡ true) × (is_indirect d ≡ false) × (d.len < 2 ^ 32) × Linked ds

Linked-snoc :
    (out : List VirtqDesc) (d : VirtqDesc)
    → goes_on d ≡ true
    → is_indirect d ≡ false
    → d.len < 2 ^ 32
    → Linked out
    → Linked (out ++ d ∷ [])
unfolding Linked
Linked-snoc [] d g i w h = (g, i, w, tt)
Linked-snoc (e ∷ out) d g i w (a, b, v, h) = (a, b, v, Linked-snoc out d g i w h)

end-IsChain :
    (out : List VirtqDesc) (d : VirtqDesc)
    → goes_on d ≡ false
    → is_indirect d ≡ false
    → d.len < 2 ^ 32
    → Linked out
    → IsChain (out ++ d ∷ [])
unfolding Linked IsChain
end-IsChain [] d g i w h = (g, i, w)
end-IsChain (e ∷ []) d g i w (a, b, v, h) = (a, b, v, (g, i, w))
end-IsChain (e ∷ f ∷ out) d g i w (a, b, v, h) = (a, b, v, end-IsChain (f ∷ out) d g i w h)

length-snoc : (out : List VirtqDesc) (d : VirtqDesc) → length (out ++ d ∷ []) ≡ length out + 1
length-snoc [] d = refl
length-snoc (e ∷ out) d = let i = length-snoc out d in omega arith

-- A chain of at most `n` descriptors.
unfoldable pub IsShort : ℕ → List VirtqDesc → Type 0
IsShort n ds = IsChain ds × (length ds ≤ n)

-- The descriptor that a chain is at, and what is made of it.
walk_on :
    {M : Type 0} (most : ℕ) (d : VirtqDesc) (out : List VirtqDesc)
    (deep further : Guest M (List VirtqDesc)) (m : M)
    → Linked out
    → length out < most
    → d.len < 2 ^ 32
    → Holds (IsShort most) (deep m)
    → (Linked (out ++ d ∷ []) → Holds (IsShort most) (further m))
    → Holds
        (IsShort most)
        ((if is_indirect d then deep else if goes_on d then further else pure (out ++ d ∷ [])) m)
unfolding IsShort
walk_on most d out deep further m l b w h k = elim (Bool-cases (is_indirect d)) [
  | inl i ↦ rw i h
  | inr i ↦ rw i (elim (Bool-cases (goes_on d)) [
    | inl g ↦ rw g (k (Linked-snoc out d g i w l))
    | inr g ↦ rw g (
        pure-Holds (IsShort most) (out ++ d ∷ []) m
          (end-IsChain out d g i w l, let e = length-snoc out d in omega arith))
  ])
]

module _ {M : Type 0} (ops : Memory M) where
  read32-Holds : (addr : ℕ) (m : M) → Holds (λ (v : ℕ). v < 2 ^ 32) (read32 ops addr m)
  unfolding read32
  read32-Holds addr m =
      and_then-Holds (λ _. Unit) (λ (v : ℕ). v < 2 ^ 32) _ _ (any-Holds _)
        (λ x m' _. pure-Holds (λ (v : ℕ). v < 2 ^ 32) (u32 x) m' (omega arith))

  read_desc_at-Holds :
      (table id : ℕ) (m : M)
      → Holds (λ (d : VirtqDesc). d.len < 2 ^ 32) (read_desc_at ops table id m)
  unfolding read_desc_at
  read_desc_at-Holds table id m =
      let base = add64 table (id * 16) in
      let Sized = λ (d : VirtqDesc). d.len < 2 ^ 32 in
      and_then-Holds (λ _. Unit) Sized _ _ (any-Holds _)
        (λ addr m1 _.
          and_then-Holds (λ (v : ℕ). v < 2 ^ 32) Sized _ _ (read32-Holds (add64 base 8) m1)
            (λ len m2 small.
              and_then-Holds (λ _. Unit) Sized _ _ (any-Holds _)
                (λ flags m3 _.
                  and_then-Holds (λ _. Unit) Sized _ _ (any-Holds _)
                    (λ next m4 _.
                      pure-Holds Sized
                        (record { addr = addr; len = len; flags = flags; next = next }) m4 small))))

  walk_chain-Holds :
      (table limit : ℕ) (nested : VirtqDesc → List VirtqDesc → Guest M (List VirtqDesc)) (most : ℕ)
      → ((d : VirtqDesc) (out : List VirtqDesc) (m : M) → Holds (IsShort most) (nested d out m))
      → (n id : ℕ) (seen : List ℕ) (out : List VirtqDesc) (m : M) → Linked out
      → length out + n ≤ most
      → Holds (IsShort most) (walk_chain ops table limit nested n id seen out m)
  unfolding walk_chain
  walk_chain-Holds table limit nested most deep zero id seen out m l b =
      fail-Holds (IsShort most) ChainError.chain_too_long m
  walk_chain-Holds table limit nested most deep (suc n) id seen out m l b =
      if-keeps (Holds (IsShort most)) (leb limit id)
        (fail-Holds (IsShort most) ChainError.outside_table m)
        (if-keeps (Holds (IsShort most)) (elem id seen)
          (fail-Holds (IsShort most) ChainError.descriptor_loop m)
          (and_then-Holds (λ d. d.len < 2 ^ 32) (IsShort most) (read_desc_at ops table id m) _
            (read_desc_at-Holds table id m)
            (λ d m' w. walk_on most d out _ _ m' l (omega arith) w (deep d out m') (λ l'.
              walk_chain-Holds table limit nested most deep n d.next (id ∷ seen) (out ++ d ∷ []) m'
                l' (let e = length-snoc out d in omega arith)))))

  read_table-Holds :
      (table limit : ℕ) (m : M) → Holds (IsShort limit) (read_table ops table limit m)
  unfolding read_table Linked
  read_table-Holds table limit m =
      walk_chain-Holds table limit _ limit
        (λ d out m'. fail-Holds (IsShort limit) ChainError.invalid_indirect m') limit 0 [] [] m tt
        (omega arith)

  IsShort-weaken :
      (a b : ℕ) (p : Answer (List VirtqDesc) × M)
      → a ≤ b
      → Holds (IsShort a) p
      → Holds (IsShort b) p
  unfolding IsShort Holds
  IsShort-weaken a b (ok ds, m) le (c, l) = (c, omega arith)
  IsShort-weaken a b (err e, m) le h = tt

  read_indirect_chain-Holds :
      (d : VirtqDesc) (m : M) → Holds (IsShort 1024) (read_indirect_chain ops d m)
  unfolding read_indirect_chain
  read_indirect_chain-Holds d m =
      if-keeps (λ (g : Guest M (List VirtqDesc)). Holds (IsShort 1024) (g m))
        (d.len == 0 || not (d.len % 16 == 0))
        (fail-Holds (IsShort 1024) ChainError.bad_table_length m)
        (elim (Bool-cases (ltb 1024 (d.len / 16))) [
          | inl e ↦ rw e (fail-Holds (IsShort 1024) ChainError.table_too_large m)
          | inr e ↦ rw e (
              IsShort-weaken (u16 (d.len / 16)) 1024 _
                (let small : d.len / 16 ≤ 1024 = ground (arith, e) in omega arith)
                (read_table-Holds d.addr (u16 (d.len / 16)) m))
        ])

  first_indirect-Holds :
      (most : ℕ)
      → 1024 ≤ most
      → (d : VirtqDesc) (out : List VirtqDesc) (m : M)
      → Holds (IsShort most) (first_indirect ops d out m)
  unfolding first_indirect
  first_indirect-Holds most le d [] m =
      IsShort-weaken 1024 most _ le (read_indirect_chain-Holds d m)
  first_indirect-Holds most le d (e ∷ out) m =
      fail-Holds (IsShort most) ChainError.invalid_indirect m

  -- Whatever the guest put in memory, a descriptor chain that is read without an error is not
  -- empty and has at most 1024 descriptors or, if that is more, the size of the queue in 16 bits;
  -- each but the last goes on and the last does not, none is indirect, and their lengths fit 32
  -- bits.
  pub read_chain-IsShort :
      (num table head : ℕ) (m : M)
      → Holds (IsShort (max 1024 (u16 num))) (read_chain ops num table head m)
  unfolding read_chain read_direct_chain Linked
  read_chain-IsShort num table head m =
      let most = max 1024 (u16 num) in
      if-keeps (λ (g : Guest M (List VirtqDesc)). Holds (IsShort most) (g m)) (leb num head)
        (fail-Holds (IsShort most) ChainError.head_outside m)
        (and_then-Holds (λ _. Unit) (IsShort most) (read_desc_at ops table head m) _ (any-Holds _)
          (λ d m' _.
            if-keeps (λ (g : Guest M (List VirtqDesc)). Holds (IsShort most) (g m')) (is_indirect d)
              (IsShort-weaken 1024 most _ (omega arith) (read_indirect_chain-Holds d m'))
              (walk_chain-Holds table (u16 num) (first_indirect ops) most
                (first_indirect-Holds most (omega arith)) (u16 num) head [] [] m' tt
                (omega arith))))
