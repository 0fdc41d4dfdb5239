-- ===== src/Virtio/Console/Rx.antt =====
-- The input of the console on its way to the guest (`fillRx` in internal/dev/virtio_console.go).
use rvwasm.Base.{
  ℕ, ◌+◌, ◌%◌, ◌^◌, ◌<◌, min, Bool, true, false, not, ◌||◌, inl, inr, List, [], ◌∷◌, ◌≡◌, refl,
  arith, ◌==◌, Bool-cases, add32,
}
use rvwasm.Base.Arrays.{length, take, drop, length-++, length-take}
use rvwasm.Virtio.Guest.{Memory, Answer, ok, err, copy_to_guest}
use rvwasm.Virtio.Chain.{VirtqDesc, is_writable, read_chain}
use rvwasm.Virtio.Chain.Pieces.{
  Pieces, bytes_of, room, IsSent, IsCopied, copy_to_guest-IsCopied, stop-IsSent, skip-IsSent,
  halt-IsSent, more-IsSent,
}
use rvwasm.Virtio.Transport.{Failure}
use rvwasm.Virtio.Queue.{Device, run, fail, copy_out, queue_of}
use rvwasm.Virtio.Console.{Console, take_rx, on_rx_copied, rx_descs, on_rx_chain, fill_rx, queue_rx}

module _ {M : Type 0} (ops : Memory M) where
  -- Bytes went from the front of the input to the chain, and `used` grew by as many.
  unfoldable pub IsTaken : List VirtqDesc → ℕ → List ℕ → M → ℕ × Device M Console → Type 0
  IsTaken xs used rx m (used', d') =
      (good : Bool) × (ps : Pieces) × IsSent ops xs m rx (good, d'.own.rx, d'.mem) ps
      × (used' ≡ (used + length (bytes_of ps)) % 2 ^ 32)

  -- A chain that cannot be read takes nothing and marks the device as failed.
  unfoldable pub Takes : Answer (List VirtqDesc) × Device M Console → ℕ × Device M Console → Type 0
  Takes (err e, d) r = r ≡ (0, fail (Failure.bad_chain e) d)
  Takes (ok xs, d) r = IsTaken xs 0 d.own.rx d.mem r

  nothing-IsTaken :
      (xs : List VirtqDesc) (used : ℕ) (d : Device M Console)
      → used < 2 ^ 32
      → min (length d.own.rx) (room xs) ≡ 0
      → IsTaken xs used d.own.rx d.mem (used, d)
  unfolding IsTaken bytes_of
  nothing-IsTaken xs used d b e = (true, [], stop-IsSent ops xs d.own.rx d.mem e, omega arith)

  skip-IsTaken :
      (x : VirtqDesc) (xs : List VirtqDesc) (used : ℕ) (rx : List ℕ) (m : M)
      (r : ℕ × Device M Console)
      → room (x ∷ xs) ≡ room xs
      → IsTaken xs used rx m r
      → IsTaken (x ∷ xs) used rx m r
  unfolding IsTaken
  skip-IsTaken x xs used rx m r e (good, ps, s, u) =
      (good, ps, skip-IsSent ops x xs m rx (good, r.1.own.rx, r.1.mem) ps e s, u)

  more-IsTaken :
      (x : VirtqDesc) (xs : List VirtqDesc) (used : ℕ) (rx : List ℕ) (m m1 : M)
      (r : ℕ × Device M Console)
      → let n = min x.len (length rx) in
        is_writable x ≡ true
        → IsCopied ops (take n rx) x.addr m (true, m1)
        → IsTaken xs (add32 used n) (drop n rx) m1 r
        → IsTaken (x ∷ xs) used rx m r
  unfolding IsTaken bytes_of IsCopied
  more-IsTaken x xs used rx m m1 r w c (good, ps, s, u) =
      let n = min x.len (length rx) in
      let t = length-take n rx in
      let sum = length-++ (take n rx) (bytes_of ps) in
      (
        good,
        (x, take n rx) ∷ ps,
        more-IsSent ops x xs m m1 rx (good, r.1.own.rx, r.1.mem) ps w c s,
        omega (arith, t, sum, u),
      )

  on_rx_copied-IsTaken :
      (x : VirtqDesc) (xs : List VirtqDesc) (used : ℕ)
      (rest : ℕ → Device M Console → ℕ × Device M Console) (d : Device M Console) (p : Bool × M)
      → let n = min x.len (length d.own.rx) in
        used < 2 ^ 32
        → is_writable x ≡ true
        → IsCopied ops (take n d.own.rx) x.addr d.mem p
        → ((u : ℕ) (d' : Device M Console) → u < 2 ^ 32 → IsTaken xs u d'.own.rx d'.mem (rest u d'))
        → IsTaken
            (x ∷ xs)
            used
            d.own.rx
            d.mem
            (on_rx_copied ops n used rest (p.0, record d { mem = p.1 }))
  unfolding on_rx_copied fail take_rx IsTaken IsCopied bytes_of
  on_rx_copied-IsTaken x xs used rest d (false, m1) b w c k =
      (false, [], halt-IsSent ops x xs d.mem m1 d.own.rx w c, omega arith)
  on_rx_copied-IsTaken x xs used rest d (true, m1) b w c k =
      let n = min x.len (length d.own.rx) in
      let d' = take_rx n (record d { mem = m1 }) in
      more-IsTaken x xs used d.own.rx d.mem m1
        (on_rx_copied ops n used rest (true, record d { mem = m1 })) w c
        (elim (Bool-cases (length d'.own.rx == 0)) [
          | inl e ↦ rw e (nothing-IsTaken xs (add32 used n) d' (omega arith) (ground (arith, e)))
          | inr e ↦ rw e (k (add32 used n) d' (omega arith))
        ])

  rx_descs-IsTaken :
      (xs : List VirtqDesc) (used : ℕ) (d : Device M Console)
      → used < 2 ^ 32
      → IsTaken xs used d.own.rx d.mem (rx_descs ops xs used d)
  unfolding rx_descs copy_out room
  rx_descs-IsTaken [] used d b = nothing-IsTaken [] used d b (omega arith)
  rx_descs-IsTaken (x ∷ xs) used d b =
      let n = min x.len (length d.own.rx) in
      elim (Bool-cases (not (is_writable x) || x.len == 0)) [
        | inl e ↦ rw e (
            skip-IsTaken x xs used d.own.rx d.mem _ (ground (arith, e))
              (rx_descs-IsTaken xs used d b))
        | inr e ↦
            let w : is_writable x ≡ true = ground (arith, e) in
            elim (Bool-cases (n == 0)) [
              | inl z ↦ rw (e, z) (nothing-IsTaken (x ∷ xs) used d b (ground (arith, e, z)))
              | inr z ↦
                  rw (e, z)
                    (on_rx_copied-IsTaken x xs used _ d
                      (copy_to_guest ops x.addr (take n d.own.rx) d.mem) b w
                      (copy_to_guest-IsCopied ops (take n d.own.rx) x.addr d.mem)
                      (λ u d' c. rx_descs-IsTaken xs u d' c))
            ]
      ]

  on_rx_chain-Takes : (p : Answer (List VirtqDesc) × Device M Console) → Takes p (on_rx_chain ops p)
  unfolding on_rx_chain Takes
  on_rx_chain-Takes (err e, d) = refl
  on_rx_chain-Takes (ok descs, d) = rx_descs-IsTaken descs 0 d (omega arith)

  -- When the console fills a chain that it could read, it writes bytes from the front of its input
  -- to the guest, one after the other, in pieces that go to writable descriptors of the chain in
  -- order and fit them. These bytes and no others leave the input, and their number in 32 bits is
  -- the number of bytes used. They are as many as the input and the chain allow, unless a write to
  -- the guest fails; then the piece with this write stays in the input. A chain that cannot be
  -- read uses nothing and only marks the device as failed.
  pub fill_rx-Takes :
      (head : ℕ) (d : Device M Console)
      → let q = queue_of queue_rx d in
        Takes (run (read_chain ops q.num q.desc head) d) (fill_rx ops head d)
  unfolding fill_rx
  fill_rx-Takes head d =
      let q = queue_of queue_rx d in on_rx_chain-Takes (run (read_chain ops q.num q.desc head) d)
