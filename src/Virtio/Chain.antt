-- ===== src/Virtio/Chain.antt =====
-- Descriptor chains (`readChain` and the functions that it calls in internal/dev/virtio_blk.go; the other
-- devices repeat them).
pub mod Shape
pub mod Keeps
pub mod Pieces
use rvwasm.Base.{
  ℕ, zero, suc, ◌+◌, ◌*◌, ◌/◌, ◌%◌, ◌^◌, Bool, true, false, not, ◌&&◌, ◌||◌, List, [], ◌∷◌, ◌++◌,
  ltb, leb, ◌==◌, if◌then◌else◌, has, add64, u16,
}
use rvwasm.Cpu.Csr.{elem}
use rvwasm.Virtio.Guest.{
  Memory, ChainError, Answer, ok, err, Guest, pure, fail, ◌>>=◌, read16, read32, read64,
}

abbrev pub virtq_desc_f_next : ℕ
virtq_desc_f_next = 1

abbrev pub virtq_desc_f_write : ℕ
virtq_desc_f_write = 2

abbrev pub virtq_desc_f_indirect : ℕ
virtq_desc_f_indirect = 4

pub record VirtqDesc : Type 0 where
  pub addr : ℕ
  pub len : ℕ
  pub flags : ℕ
  pub next : ℕ

-- `d.flags & virtqDescFNext != 0` and its like
abbrev pub goes_on : VirtqDesc → Bool
goes_on d = has d.flags virtq_desc_f_next

abbrev pub is_writable : VirtqDesc → Bool
is_writable d = has d.flags virtq_desc_f_write

abbrev pub is_indirect : VirtqDesc → Bool
is_indirect d = has d.flags virtq_desc_f_indirect

module _ {M : Type 0} (ops : Memory M) where
  unfoldable pub read_desc_at : ℕ → ℕ → Guest M VirtqDesc
  read_desc_at table id =
      let base = add64 table (id * 16) in
      do
        addr ← read64 ops base
        len ← read32 ops (add64 base 8)
        flags ← read16 ops (add64 base 12)
        next ← read16 ops (add64 base 14)
        pure (record { addr = addr; len = len; flags = flags; next = next })

  -- The loop of `readDirectChain` with the rounds left, the identifiers that were seen and the
  -- descriptors so far. `nested` is what an indirect descriptor leads to.
  unfoldable pub walk_chain :
      ℕ
      → ℕ
      → (VirtqDesc → List VirtqDesc → Guest M (List VirtqDesc))
      → ℕ
      → ℕ
      → List ℕ
      → List VirtqDesc
      → Guest M (List VirtqDesc)
  walk_chain table limit nested zero id seen out m = (err ChainError.chain_too_long, m)
  walk_chain table limit nested (suc n) id seen out m =
      if leb limit id
      then (err ChainError.outside_table, m)
      else if elem id seen
      then (err ChainError.descriptor_loop, m)
      else (read_desc_at table id >>= λ d.
            let further = walk_chain table limit nested n d.next (id ∷ seen) (out ++ d ∷ []) in
            if is_indirect d
            then nested d out
            else if goes_on d
            then further
            else pure (out ++ d ∷ []))
          m

  -- `readDirectChain` of a table that is indirect itself: it allows no further indirection.
  unfoldable pub read_table : ℕ → ℕ → Guest M (List VirtqDesc)
  read_table table limit =
      walk_chain table limit (λ _ _. fail ChainError.invalid_indirect) limit 0 [] []

  unfoldable pub read_indirect_chain : VirtqDesc → Guest M (List VirtqDesc)
  read_indirect_chain d =
      let limit = d.len / 16 in
      if d.len == 0 || not (d.len % 16 == 0)
      then fail ChainError.bad_table_length
      else if ltb 1024 limit
      then fail ChainError.table_too_large
      else read_table d.addr (u16 limit)

  -- An indirect descriptor may stand first in a direct chain only.
  unfoldable pub first_indirect : VirtqDesc → List VirtqDesc → Guest M (List VirtqDesc)
  first_indirect d [] = read_indirect_chain d
  first_indirect d (e ∷ out) = fail ChainError.invalid_indirect

  unfoldable pub read_direct_chain : ℕ → ℕ → ℕ → Guest M (List VirtqDesc)
  read_direct_chain head table limit = walk_chain table limit first_indirect limit head [] []

  -- `num` and `table` are those of the queue.
  unfoldable pub read_chain : ℕ → ℕ → ℕ → Guest M (List VirtqDesc)
  read_chain num table head =
      if leb num head
      then fail ChainError.head_outside
      else (read_desc_at table head >>= λ d.
          if is_indirect d then read_indirect_chain d else read_direct_chain head table (u16 num))
