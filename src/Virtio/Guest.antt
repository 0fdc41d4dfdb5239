-- ===== src/Virtio/Guest.antt =====
-- The memory of the guest as a device calls it (`v.bus.Read` and `v.bus.Write`), and actions on it
-- that may fail. `M` is the bus and everything behind it.
pub mod Holds
pub mod Keeps
use rvwasm.Base.{
  ℕ, zero, suc, ◌+◌, ◌^◌, ◌%◌, Bool, true, false, Option, none, some, List, [], ◌∷◌, ◌++◌, add64,
  u16, u32,
}

-- `read` takes an address and a size, `write` a value too; the flag is false for an error.
pub record Memory (M : Type 0) : Type 0 where
  pub read : M → ℕ → ℕ → Option ℕ × M
  pub write : M → ℕ → ℕ → ℕ → Bool × M

-- The errors of `readChain` and of what it calls, and of the bus.
pub data ChainError : Type 0 where
  bus_error head_outside outside_table descriptor_loop invalid_indirect chain_too_long
        bad_table_length table_too_large :
      ChainError

pub data Answer (A : Type 0) : Type 0 where
  ok : A → Answer A
  err : ChainError → Answer A

abbrev pub Guest : Type 0 → Type 0 → Type 0
Guest M A = M → Answer A × M

module _ {M A : Type 0} where
  abbrev pub pure : A → Guest M A
  pure a m = (ok a, m)

  abbrev pub fail : ChainError → Guest M A
  fail e m = (err e, m)

-- The answer of one action handed to the next.
unfoldable pub and_then : {M A B : Type 0} → Answer A × M → (A → Guest M B) → Answer B × M
and_then (ok a, m) f = f a m
and_then (err e, m) f = (err e, m)

infixl 5 ◌>>=◌
abbrev pub ◌>>=◌ : {M A B : Type 0} → Guest M A → (A → Guest M B) → Guest M B
◌>>=◌ g f m = and_then (g m) f

unfoldable pub answer_of : {M : Type 0} → Option ℕ × M → Answer ℕ × M
answer_of (none, m) = (err bus_error, m)
answer_of (some v, m) = (ok v, m)

-- The bytes after one that was written.
unfoldable pub after_byte : {M : Type 0} → (M → Bool × M) → Bool × M → Bool × M
after_byte rest (true, m) = rest m
after_byte rest (false, m) = (false, m)

module _ {M : Type 0} (ops : Memory M) where
  abbrev pub read_guest : ℕ → ℕ → Guest M ℕ
  read_guest size addr m = answer_of (ops.read m addr size)

  -- `read16`, `read32` and `read64`
  unfoldable pub read16 : ℕ → Guest M ℕ
  read16 addr = read_guest 2 addr >>= λ x. pure (u16 x)

  unfoldable pub read32 : ℕ → Guest M ℕ
  read32 addr = read_guest 4 addr >>= λ x. pure (u32 x)

  unfoldable pub read64 : ℕ → Guest M ℕ
  read64 addr = read_guest 8 addr

  -- The loop of `copyToGuest`, from a byte on: whether it succeeded.
  unfoldable pub copy_to_guest : ℕ → List ℕ → M → Bool × M
  copy_to_guest addr [] m = (true, m)
  copy_to_guest addr (b ∷ bs) m =
      after_byte (copy_to_guest (add64 addr 1) bs) (ops.write m addr 1 b)

  -- The loop of `copyFromGuest`, for `n` bytes.
  unfoldable pub copy_from_guest : ℕ → ℕ → Guest M (List ℕ)
  copy_from_guest zero addr m = (ok [], m)
  copy_from_guest (suc n) addr m =
      (do x ← read_guest 1 addr; rest ← copy_from_guest n (add64 addr 1); pure (x % 2 ^ 8 ∷ rest)) m
