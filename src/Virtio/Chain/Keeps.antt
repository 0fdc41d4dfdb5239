-- ===== src/Virtio/Chain/Keeps.antt =====
-- Reading a descriptor chain (`readChain` in internal/dev/virtio_*.go) and a property of the memory.
use rvwasm.Base.{
  ℕ, zero, suc, ◌*◌, ◌/◌, ◌%◌, not, ◌||◌, List, [], ◌∷◌, ◌++◌, ltb, leb, ◌==◌, if-keeps, add64, u16,
}
use rvwasm.Cpu.Csr.{elem}
use rvwasm.Virtio.Guest.{Memory, Answer, Guest}
use rvwasm.Virtio.Guest.Keeps.{
  AreKeptByReads, and_then-Keeps, read16-Keeps, read32-Keeps, read64-Keeps,
}
use rvwasm.Virtio.Chain.{
  VirtqDesc, goes_on, is_indirect, read_desc_at, walk_chain, read_table, read_indirect_chain,
  first_indirect, read_direct_chain, read_chain,
}

module _ {M : Type 0} (ops : Memory M) (J : M → Type 0) (reads : AreKeptByReads ops J) where
  abbrev IsKept : {A : Type 0} → Guest M A → Type 0
  IsKept g = (m : M) → J m → J (g m).1

  read_desc_at-Keeps : (table id : ℕ) → IsKept (read_desc_at ops table id)
  unfolding read_desc_at
  read_desc_at-Keeps table id m h =
      let base = add64 table (id * 16) in
      and_then-Keeps J _ _ (read64-Keeps ops J reads base m h) (λ a m1 h1.
        and_then-Keeps J _ _ (read32-Keeps ops J reads (add64 base 8) m1 h1) (λ l m2 h2.
          and_then-Keeps J _ _ (read16-Keeps ops J reads (add64 base 12) m2 h2) (λ f m3 h3.
            and_then-Keeps J _ _ (read16-Keeps ops J reads (add64 base 14) m3 h3) (λ n m4 h4. h4))))

  walk_chain-Keeps :
      (table limit : ℕ) (nested : VirtqDesc → List VirtqDesc → Guest M (List VirtqDesc))
      → ((d : VirtqDesc) (out : List VirtqDesc) → IsKept (nested d out))
      → (n id : ℕ) (seen : List ℕ) (out : List VirtqDesc)
      → IsKept (walk_chain ops table limit nested n id seen out)
  unfolding walk_chain
  walk_chain-Keeps table limit nested deep zero id seen out m h = h
  walk_chain-Keeps table limit nested deep (suc n) id seen out m h =
      if-keeps (λ (p : Answer (List VirtqDesc) × M). J p.1) (leb limit id) h
        (if-keeps (λ (p : Answer (List VirtqDesc) × M). J p.1) (elem id seen) h
          (and_then-Keeps J _ _ (read_desc_at-Keeps table id m h) (λ d m' h'.
            if-keeps (λ (g : Guest M (List VirtqDesc)). J (g m').1) (is_indirect d)
              (deep d out m' h')
              (if-keeps (λ (g : Guest M (List VirtqDesc)). J (g m').1) (goes_on d)
                (walk_chain-Keeps table limit nested deep n d.next (id ∷ seen) (out ++ d ∷ []) m'
                  h')
                h'))))

  read_table-Keeps : (table limit : ℕ) → IsKept (read_table ops table limit)
  unfolding read_table
  read_table-Keeps table limit = walk_chain-Keeps table limit _ (λ d out m h. h) limit 0 [] []

  read_indirect_chain-Keeps : (d : VirtqDesc) → IsKept (read_indirect_chain ops d)
  unfolding read_indirect_chain
  read_indirect_chain-Keeps d m h =
      if-keeps (λ (g : Guest M (List VirtqDesc)). J (g m).1) (d.len == 0 || not (d.len % 16 == 0)) h
        (if-keeps (λ (g : Guest M (List VirtqDesc)). J (g m).1) (ltb 1024 (d.len / 16)) h
          (read_table-Keeps d.addr (u16 (d.len / 16)) m h))

  first_indirect-Keeps : (d : VirtqDesc) (out : List VirtqDesc) → IsKept (first_indirect ops d out)
  unfolding first_indirect
  first_indirect-Keeps d [] m h = read_indirect_chain-Keeps d m h
  first_indirect-Keeps d (e ∷ out) m h = h

  pub read_chain-Keeps : (num table head : ℕ) (m : M) → J m → J (read_chain ops num table head m).1
  unfolding read_chain read_direct_chain
  read_chain-Keeps num table head m h =
      if-keeps (λ (g : Guest M (List VirtqDesc)). J (g m).1) (leb num head) h
        (and_then-Keeps J _ _ (read_desc_at-Keeps table head m h) (λ d m' h'.
          if-keeps (λ (g : Guest M (List VirtqDesc)). J (g m').1) (is_indirect d)
            (read_indirect_chain-Keeps d m' h')
            (walk_chain-Keeps table (u16 num) _ first_indirect-Keeps (u16 num) head [] [] m' h')))
