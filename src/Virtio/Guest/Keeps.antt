-- ===== src/Virtio/Guest/Keeps.antt =====
-- The actions on the guest's memory and a property of it that its reads and writes keep.
use rvwasm.Base.{ℕ, zero, suc, Bool, true, false, List, [], ◌∷◌, add64, Option, none, some}
use rvwasm.Virtio.Guest.{
  Memory, Answer, ok, err, Guest, and_then, answer_of, read_guest, read16, read32, read64,
  copy_to_guest, copy_from_guest, after_byte,
}

pub and_then-Keeps :
    {M A B : Type 0} (J : M → Type 0) (p : Answer A × M) (f : A → Guest M B)
    → J p.1
    → ((a : A) (m : M) → J m → J (f a m).1)
    → J (and_then p f).1
unfolding and_then
and_then-Keeps J (ok a, m) f h k = k a m h
and_then-Keeps J (err e, m) f h k = h

answer_of-Keeps : {M : Type 0} (J : M → Type 0) (p : Option ℕ × M) → J p.1 → J (answer_of p).1
unfolding answer_of
answer_of-Keeps J (none, m) h = h
answer_of-Keeps J (some v, m) h = h

after_byte-Keeps :
    {M : Type 0} (J : M → Type 0) (rest : M → Bool × M) (p : Bool × M)
    → ((m : M) → J m → J (rest m).1)
    → J p.1
    → J (after_byte rest p).1
unfolding after_byte
after_byte-Keeps J rest (true, m) k h = k m h
after_byte-Keeps J rest (false, m) k h = h

-- The reads of a memory keep `J`, and so do its writes.
unfoldable pub AreKeptByReads : {M : Type 0} → Memory M → (M → Type 0) → Type 0
AreKeptByReads {M} ops J = (m : M) (addr size : ℕ) → J m → J (ops.read m addr size).1

unfoldable pub AreKeptByWrites : {M : Type 0} → Memory M → (M → Type 0) → Type 0
AreKeptByWrites {M} ops J = (m : M) (addr size val : ℕ) → J m → J (ops.write m addr size val).1

module _ {M : Type 0} (ops : Memory M) (J : M → Type 0) (reads : AreKeptByReads ops J) where
  pub read_guest-Keeps : (size addr : ℕ) (m : M) → J m → J (read_guest ops size addr m).1
  unfolding AreKeptByReads
  read_guest-Keeps size addr m h = answer_of-Keeps J (ops.read m addr size) (reads m addr size h)

  pub read16-Keeps : (addr : ℕ) (m : M) → J m → J (read16 ops addr m).1
  unfolding read16
  read16-Keeps addr m h = and_then-Keeps J _ _ (read_guest-Keeps 2 addr m h) (λ x m' h'. h')

  pub read32-Keeps : (addr : ℕ) (m : M) → J m → J (read32 ops addr m).1
  unfolding read32
  read32-Keeps addr m h = and_then-Keeps J _ _ (read_guest-Keeps 4 addr m h) (λ x m' h'. h')

  pub read64-Keeps : (addr : ℕ) (m : M) → J m → J (read64 ops addr m).1
  unfolding read64
  read64-Keeps addr m h = read_guest-Keeps 8 addr m h

  pub copy_from_guest-Keeps : (n addr : ℕ) (m : M) → J m → J (copy_from_guest ops n addr m).1
  unfolding copy_from_guest
  copy_from_guest-Keeps zero addr m h = h
  copy_from_guest-Keeps (suc n) addr m h =
      and_then-Keeps J _ _ (read_guest-Keeps 1 addr m h) (λ x m1 h1.
        and_then-Keeps J _ _ (copy_from_guest-Keeps n (add64 addr 1) m1 h1) (λ rest m2 h2. h2))

  module _ (writes : AreKeptByWrites ops J) where
    pub copy_to_guest-Keeps :
        (bytes : List ℕ) (addr : ℕ) (m : M) → J m → J (copy_to_guest ops addr bytes m).1
    unfolding copy_to_guest AreKeptByWrites
    copy_to_guest-Keeps [] addr m h = h
    copy_to_guest-Keeps (b ∷ bs) addr m h =
        after_byte-Keeps J (copy_to_guest ops (add64 addr 1) bs) (ops.write m addr 1 b)
          (copy_to_guest-Keeps bs (add64 addr 1)) (writes m addr 1 b h)
