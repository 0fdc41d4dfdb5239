-- ===== src/Virtio/Chain/Pieces.antt =====
-- What a device writes to the guest's memory through a chain, byte by byte (`copyToGuest` and the loops
-- around it in internal/dev/virtio_console.go and virtio_net.go).
use mathlib.Core.List.{append_assoc}
use rvwasm.Base.{
  ℕ, ◌+◌, ◌≤◌, min, Bool, true, false, ◌⊎◌, inl, inr, List, [], ◌∷◌, ◌++◌, ◌≡◌, refl, sym, ap, ◌∙◌,
  arith, if◌then◌else◌, add64,
}
use rvwasm.Base.Arrays.{length, take, drop, length-++, length-take, take-++-drop}
use rvwasm.Virtio.Guest.{Memory, copy_to_guest, after_byte}
use rvwasm.Virtio.Chain.{VirtqDesc, is_writable}

-- Bytes, each with the descriptor that they go to.
abbrev pub Pieces : Type 0
Pieces = List (VirtqDesc × List ℕ)

unfoldable pub bytes_of : Pieces → List ℕ
bytes_of [] = []
bytes_of ((x, bs) ∷ ps) = bs ++ bytes_of ps

-- The pieces go to descriptors of the chain in its order, at most one piece to each, and each is for
-- the device to write and has room for its piece.
unfoldable pub AreIn : Pieces → List VirtqDesc → Type 0
AreIn [] xs = Unit
AreIn (p ∷ ps) [] = ⊥
AreIn ((y, bs) ∷ ps) (x ∷ xs) =
    ((y ≡ x) × (is_writable x ≡ true) × (length bs ≤ x.len) × AreIn ps xs) ⊎ AreIn ((y, bs) ∷ ps) xs

-- How many bytes a device may write to a chain.
unfoldable pub room : List VirtqDesc → ℕ
room [] = 0
room (x ∷ xs) = if is_writable x then x.len + room xs else room xs

module _ {M : Type 0} (ops : Memory M) where
  -- The bytes are written one by one from an address on, each without an error.
  unfoldable pub IsWritten : List ℕ → ℕ → M → M → Type 0
  IsWritten [] addr m m' = m' ≡ m
  IsWritten (b ∷ bs) addr m m' =
      (m1 : M) × (ops.write m addr 1 b ≡ (true, m1)) × IsWritten bs (add64 addr 1) m1 m'

  -- One of the bytes is answered by an error, those before it are written.
  unfoldable pub IsHalted : List ℕ → ℕ → M → M → Type 0
  IsHalted [] addr m m' = ⊥
  IsHalted (b ∷ bs) addr m m' =
      (ops.write m addr 1 b ≡ (false, m'))
      ⊎ ((m1 : M) × (ops.write m addr 1 b ≡ (true, m1)) × IsHalted bs (add64 addr 1) m1 m')

  unfoldable pub AreWritten : Pieces → M → M → Type 0
  AreWritten [] m m' = m' ≡ m
  AreWritten ((x, bs) ∷ ps) m m' = (m1 : M) × IsWritten bs x.addr m m1 × AreWritten ps m1 m'

  -- What becomes of some bytes, of which `left` are left: all that there are, or all that the chain has
  -- room for, are written, or after some pieces a write to the guest fails.
  unfoldable pub IsSent : List VirtqDesc → M → List ℕ → Bool × List ℕ × M → Pieces → Type 0
  IsSent xs m input (true, left, m') ps =
      (input ≡ bytes_of ps ++ left)
      × AreIn ps xs
      × AreWritten ps m m'
      × (length (bytes_of ps) ≡ min (length input) (room xs))
  IsSent xs m input (false, left, m') ps =
      (input ≡ bytes_of ps ++ left)
      × ((x : VirtqDesc) × (m1 : M) × AreIn (ps ++ (x, take (min x.len (length left)) left) ∷ []) xs
          × AreWritten ps m m1
          × IsHalted (take (min x.len (length left)) left) x.addr m1 m')

  -- `copyToGuest`
  unfoldable pub IsCopied : List ℕ → ℕ → M → Bool × M → Type 0
  IsCopied bs addr m (true, m') = IsWritten bs addr m m'
  IsCopied bs addr m (false, m') = IsHalted bs addr m m'

  after_byte-IsCopied :
      (b : ℕ) (bs : List ℕ) (addr : ℕ) (m : M) (p : Bool × M)
      → ops.write m addr 1 b ≡ p
      → ((m1 : M) → IsCopied bs (add64 addr 1) m1 (copy_to_guest ops (add64 addr 1) bs m1))
      → IsCopied (b ∷ bs) addr m (after_byte (copy_to_guest ops (add64 addr 1) bs) p)
  unfolding after_byte IsCopied IsWritten IsHalted
  after_byte-IsCopied b bs addr m (false, m1) e k = inl e
  after_byte-IsCopied b bs addr m (true, m1) e k =
      put_first (copy_to_guest ops (add64 addr 1) bs m1) (k m1)
    where
      put_first : (r : Bool × M) → IsCopied bs (add64 addr 1) m1 r → IsCopied (b ∷ bs) addr m r
      put_first (true, m') h = (m1, e, h)
      put_first (false, m') h = inr (m1, e, h)

  pub copy_to_guest-IsCopied :
      (bs : List ℕ) (addr : ℕ) (m : M) → IsCopied bs addr m (copy_to_guest ops addr bs m)
  unfolding copy_to_guest IsCopied IsWritten
  copy_to_guest-IsCopied [] addr m = refl
  copy_to_guest-IsCopied (b ∷ bs) addr m =
      after_byte-IsCopied b bs addr m (ops.write m addr 1 b) refl
        (copy_to_guest-IsCopied bs (add64 addr 1))

  -- The steps of a loop over a chain.
  pub stop-IsSent :
      (xs : List VirtqDesc) (input : List ℕ) (m : M)
      → min (length input) (room xs) ≡ 0
      → IsSent xs m input (true, input, m) []
  unfolding IsSent AreIn AreWritten bytes_of
  stop-IsSent xs input m e = (refl, tt, refl, sym e)

  AreIn-skip : (x : VirtqDesc) (xs : List VirtqDesc) (ps : Pieces) → AreIn ps xs → AreIn ps (x ∷ xs)
  unfolding AreIn
  AreIn-skip x xs [] h = tt
  AreIn-skip x xs ((y, bs) ∷ ps) h = inr h

  pub skip-IsSent :
      (x : VirtqDesc) (xs : List VirtqDesc) (m : M) (input : List ℕ) (r : Bool × List ℕ × M)
      (ps : Pieces)
      → room (x ∷ xs) ≡ room xs
      → IsSent xs m input r ps
      → IsSent (x ∷ xs) m input r ps
  unfolding IsSent
  skip-IsSent x xs m input (true, left, m') ps e (s, i, w, n) =
      (s, AreIn-skip x xs ps i, w, omega (arith, n, e))
  skip-IsSent x xs m input (false, left, m') ps e (s, (y, m1, i, w, h)) =
      (s, (y, m1, AreIn-skip x xs (ps ++ (y, take (min y.len (length left)) left) ∷ []) i, w, h))

  pub halt-IsSent :
      (x : VirtqDesc) (xs : List VirtqDesc) (m m' : M) (input : List ℕ)
      → is_writable x ≡ true
      → IsHalted (take (min x.len (length input)) input) x.addr m m'
      → IsSent (x ∷ xs) m input (false, input, m') []
  unfolding IsSent AreIn AreWritten bytes_of
  halt-IsSent x xs m m' input w h = (
    refl,
    (
      x,
      m,
      inl (refl, w, let t = length-take (min x.len (length input)) input in omega (arith, t), tt),
      refl,
      h,
    ),
  )

  joined :
      (n : ℕ) (input bytes left : List ℕ)
      → drop n input ≡ bytes ++ left
      → input ≡ (take n input ++ bytes) ++ left
  joined n input bytes left s =
      sym (take-++-drop n input)
      ∙ ap (λ t. take n input ++ t) s
      ∙ sym (append_assoc (take n input) bytes left)

  pub more-IsSent :
      (x : VirtqDesc) (xs : List VirtqDesc) (m m1 : M) (input : List ℕ) (r : Bool × List ℕ × M)
      (ps : Pieces)
      → let n = min x.len (length input) in
        is_writable x ≡ true
        → IsWritten (take n input) x.addr m m1
        → IsSent xs m1 (drop n input) r ps
        → IsSent (x ∷ xs) m input r ((x, take n input) ∷ ps)
  unfolding IsSent AreIn AreWritten bytes_of room
  more-IsSent x xs m m1 input (true, left, m') ps w h (s, i, ws, n) =
      let k = min x.len (length input) in
      let t = length-take k input in
      let whole = length-++ (take k input) (drop k input) in
      let split = ap length (take-++-drop k input) in
      let sum = length-++ (take k input) (bytes_of ps) in
      (
        joined k input (bytes_of ps) left s,
        inl (refl, w, omega (arith, t), i),
        (m1, h, ws),
        rw w (omega (arith, t, whole, split, sum, n)),
      )
  more-IsSent x xs m m1 input (false, left, m') ps w h (s, (y, m2, i, ws, c)) =
      let k = min x.len (length input) in
      let t = length-take k input in
      (
        joined k input (bytes_of ps) left s,
        (y, m2, inl (refl, w, omega (arith, t), i), (m1, h, ws), c),
      )
