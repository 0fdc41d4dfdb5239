-- ===== src/Ring/Recent.antt =====
-- What is read back from a ring log (internal/cpu/trace.go and internal/mem/bus.go).
use rvwasm.Base.{ℕ, zero, suc, ◌+◌, ◌-◌, ◌%◌, ◌≤◌, ◌<◌, ◌≡◌, ◌≢◌, refl, List, [], ◌∷◌}
use rvwasm.Base.{Option, some, arith, ltb, ◌==◌, ◌||◌, if◌then◌else◌, min, ap₂}
use native.Mathlib.Nat.{div-add-mod}
use rvwasm.Ring.Defs.{Ring, empty_ring, push, read_from, recent}

-- Two positions less than the size apart have different places.
place_ne : (k p size : ℕ) → k < p → p < k + size → k % size ≢ p % size
place_ne k p size h g e = absurd (grind (arith, div-add-mod k size, div-add-mod p size))

module _ {A : Type 0} (size : ℕ) (written : ℕ → A) where
  -- The ring after the first `n` writes.
  pub fill : ℕ → Ring A
  fill zero = empty_ring
  fill (suc n) = push size (written n) (fill n)

  -- The writes from `start` on, as they were written.
  pub window : ℕ → ℕ → List (Option A)
  window start zero = []
  window start (suc n) = some (written start) ∷ window (start + 1) n

  fill-pos : (n : ℕ) → (fill n).pos ≡ n
  unfolding fill push
  fill-pos zero = refl
  fill-pos (suc n) = omega (arith, fill-pos n)

  fill-count : (n : ℕ) → (fill n).count ≡ min n size
  unfolding fill push
  fill-count zero = omega arith
  fill-count (suc n) = ground (arith, fill-count n)

  fill-entries : (n k : ℕ) → k < n → n ≤ k + size → (fill n).entries (k % size) ≡ some (written k)
  unfolding fill push
  fill-entries zero k h g = absurd (omega arith)
  fill-entries (suc n) k h g = ground (arith, fill-pos n, fill-entries n k, place_ne k n size)

  read_from-window :
      (n start m : ℕ)
      → start + m ≤ n
      → n ≤ start + size
      → read_from size (fill n) start m ≡ window start m
  unfolding read_from window
  read_from-window n start zero h g = refl
  read_from-window n start (suc m) h g =
      ap₂ ◌∷◌ (fill-entries n start (omega arith) (omega arith))
        (read_from-window n (start + 1) m (omega arith) (omega arith))

  -- What a reader shows of `n` writes when it is asked for `limit`.
  pub shown : ℕ → ℕ → ℕ
  shown n limit = if limit == 0 || ltb (min n size) limit then min n size else limit

  -- After n writes to an empty ring of any size, a reader that asks for a limit gets the last
  -- writes, oldest first: as many as the limit, or, for a limit of 0 or above what the ring holds,
  -- the smaller of n and the size.
  pub recent-fill :
      (n limit : ℕ) → recent size (fill n) limit ≡ window (n - shown n limit) (shown n limit)
  unfolding recent shown
  recent-fill n limit =
      simp (fill-pos n, fill-count n)
        (read_from-window n (n - shown n limit) (shown n limit) (ground arith) (ground arith))
