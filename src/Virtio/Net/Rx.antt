-- ===== src/Virtio/Net/Rx.antt =====
-- A waiting frame on its way to the guest (`fillRx` in internal/dev/virtio_net.go).
use rvwasm.Base.{
  ℕ, ◌+◌, ◌<◌, min, Bool, true, false, not, ◌||◌, ◌⊎◌, inl, inr, List, [], ◌∷◌, ◌++◌, ◌≡◌, refl, ap,
  ◌∙◌, sym, arith, ◌==◌, Bool-cases, u32, add64,
}
use mathlib.Core.List.{append-nil}
use rvwasm.Base.Arrays.{length, take, drop, zeros, length-++}
use rvwasm.Virtio.Guest.{Memory, Answer, ok, err, copy_to_guest}
use rvwasm.Virtio.Chain.{VirtqDesc, is_writable, read_chain}
use rvwasm.Virtio.Chain.Pieces.{
  Pieces, bytes_of, room, AreIn, AreWritten, IsSent, IsCopied, copy_to_guest-IsCopied, stop-IsSent,
  skip-IsSent, halt-IsSent, more-IsSent,
}
use rvwasm.Virtio.Transport.{Failure}
use rvwasm.Virtio.Queue.{Device, run, fail, copy_out, queue_of}
use rvwasm.Virtio.Net.{
  Net, received, on_scattered, scatter, on_all_scattered, on_net_rx_chain, net_fill_rx,
  virtio_net_hdr_len, net_queue_rx,
}

module _ {M : Type 0} (ops : Memory M) where
  -- The loop over the descriptors sends the payload, and leaves what is the device's own.
  unfoldable pub IsScattered :
      List VirtqDesc → M → List ℕ → Net → Bool × List ℕ × Device M Net → Type 0
  IsScattered xs m payload own (good, left, d') =
      ((ps : Pieces) × IsSent ops xs m payload (good, left, d'.mem) ps) × (d'.own ≡ own)

  on_scattered-IsScattered :
      (x : VirtqDesc) (xs : List VirtqDesc) (left : List ℕ)
      (rest : List ℕ → Device M Net → Bool × List ℕ × Device M Net) (d : Device M Net)
      (p : Bool × M)
      → let n = min x.len (length left) in
        is_writable x ≡ true
        → IsCopied ops (take n left) x.addr d.mem p
        → ((l : List ℕ) (d' : Device M Net) → IsScattered xs d'.mem l d'.own (rest l d'))
        → IsScattered
            (x ∷ xs)
            d.mem
            left
            d.own
            (on_scattered ops n left rest (p.0, record d { mem = p.1 }))
  unfolding on_scattered fail IsScattered IsCopied
  on_scattered-IsScattered x xs left rest d (false, m1) w c k =
      (([], halt-IsSent ops x xs d.mem m1 left w c), refl)
  on_scattered-IsScattered x xs left rest d (true, m1) w c k =
      let n = min x.len (length left) in
      let d' = record d { mem = m1 } in
      let r = rest (drop n left) d' in
      let ((ps, s), e) = k (drop n left) d' in
      (((x, take n left) ∷ ps, more-IsSent ops x xs d.mem m1 left (r.0, r.1, r.2.mem) ps w c s), e)

  stop-IsScattered :
      (xs : List VirtqDesc) (left : List ℕ) (d : Device M Net)
      → min (length left) (room xs) ≡ 0
      → IsScattered xs d.mem left d.own (true, left, d)
  unfolding IsScattered
  stop-IsScattered xs left d e = (([], stop-IsSent ops xs left d.mem e), refl)

  skip-IsScattered :
      (x : VirtqDesc) (xs : List VirtqDesc) (left : List ℕ) (m : M) (own : Net)
      (r : Bool × List ℕ × Device M Net)
      → room (x ∷ xs) ≡ room xs
      → IsScattered xs m left own r
      → IsScattered (x ∷ xs) m left own r
  unfolding IsScattered
  skip-IsScattered x xs left m own r e ((ps, s), o) =
      ((ps, skip-IsSent ops x xs m left (r.0, r.1, r.2.mem) ps e s), o)

  scatter-IsScattered :
      (xs : List VirtqDesc) (left : List ℕ) (d : Device M Net)
      → IsScattered xs d.mem left d.own (scatter ops xs left d)
  unfolding scatter copy_out room
  scatter-IsScattered [] left d = stop-IsScattered [] left d (omega arith)
  scatter-IsScattered (x ∷ xs) left d =
      let n = min x.len (length left) in
      elim (Bool-cases (not (is_writable x) || x.len == 0)) [
        | inl e ↦ rw e (
            skip-IsScattered x xs left d.mem d.own _ (ground (arith, e))
              (scatter-IsScattered xs left d))
        | inr e ↦
            let w : is_writable x ≡ true = ground (arith, e) in
            elim (Bool-cases (length left == 0)) [
              | inl z ↦ rw (e, z) (stop-IsScattered (x ∷ xs) left d (ground (arith, z)))
              | inr z ↦
                  rw (e, z)
                    (on_scattered-IsScattered x xs left _ d
                      (copy_to_guest ops x.addr (take n left) d.mem) w
                      (copy_to_guest-IsCopied ops (take n left) x.addr d.mem)
                      (scatter-IsScattered xs))
            ]
      ]

  -- The header and the frame are all written, the first frame goes and is counted.
  unfoldable pub IsDelivered :
      List VirtqDesc → List ℕ → List (List ℕ) → Device M Net → ℕ × Device M Net → Type 0
  IsDelivered xs frame frames d (used, d') =
      ((ps : Pieces) × AreIn ps xs
        × (bytes_of ps ≡ zeros virtio_net_hdr_len ++ frame)
        × AreWritten ops ps d.mem d'.mem)
      × (used ≡ u32 (virtio_net_hdr_len + length frame))
      × (d'.own ≡ record d.own { rx_frames = frames; rx_packets = add64 d.own.rx_packets 1 })

  -- Nothing is used and the frames wait as before, because the chain has no room for the header and
  -- the frame or a write to the guest failed.
  unfoldable pub Stays : List VirtqDesc → List ℕ → Device M Net → ℕ × Device M Net → Type 0
  Stays xs frame d (used, d') =
      (used ≡ 0)
      × (d'.own ≡ d.own)
      × ((room xs < virtio_net_hdr_len + length frame)
          ⊎ ((left : List ℕ) × (ps : Pieces) × IsSent ops xs d.mem
                (zeros virtio_net_hdr_len ++ frame) (false, left, d'.mem) ps))

  unfoldable pub IsDelivery :
      List ℕ → List (List ℕ) → Answer (List VirtqDesc) × Device M Net → ℕ × Device M Net → Type 0
  IsDelivery frame frames (err e, d) r = r ≡ (0, fail (Failure.bad_chain e) d)
  IsDelivery frame frames (ok xs, d) r = IsDelivered xs frame frames d r ⊎ Stays xs frame d r

  on_all_scattered-IsDelivery :
      (xs : List VirtqDesc) (frame : List ℕ) (frames : List (List ℕ)) (d : Device M Net)
      (p : Bool × List ℕ × Device M Net)
      → let payload = zeros virtio_net_hdr_len ++ frame in
        IsScattered xs d.mem payload d.own p
        → IsDelivery frame frames (ok xs, d) (on_all_scattered ops (length payload) frames p)
  unfolding on_all_scattered IsDelivery IsDelivered Stays IsScattered IsSent received
  on_all_scattered-IsDelivery xs frame frames d (false, left, d') ((ps, s), e) =
      inr (refl, e, inr (left, ps, s))
  on_all_scattered-IsDelivery xs frame frames d (true, b ∷ left, d') ((ps, (s, i, w, n)), e) =
      let header = zeros virtio_net_hdr_len in
      let all = length-++ header frame in
      let split = length-++ (bytes_of ps) (b ∷ left) in
      let same = ap length s in inr (refl, e, inl (omega (arith, n, all, split, same)))
  on_all_scattered-IsDelivery xs frame frames d (true, [], d') ((ps, (s, i, w, n)), e) = inl (
    (ps, i, sym (s ∙ append-nil (bytes_of ps)), w),
    ap u32 (length-++ (zeros virtio_net_hdr_len) frame),
    ap (λ (o : Net). record o { rx_frames = frames; rx_packets = add64 o.rx_packets 1 }) e,
  )

  on_net_rx_chain-IsDelivery :
      (frame : List ℕ) (frames : List (List ℕ)) (p : Answer (List VirtqDesc) × Device M Net)
      → IsDelivery frame frames p (on_net_rx_chain ops frame frames p)
  unfolding on_net_rx_chain IsDelivery
  on_net_rx_chain-IsDelivery frame frames (err e, d) = refl
  on_net_rx_chain-IsDelivery frame frames (ok xs, d) =
      on_all_scattered-IsDelivery xs frame frames d _ (scatter-IsScattered xs _ d)

  -- When the network device fills a chain that it could read, one of two things happens. The
  -- header of 10 zeros and the whole frame are written to the guest, one byte after the other, in
  -- pieces that go to writable descriptors of the chain in order and fit them; their number in 32
  -- bits is used, and of the own state of the device only the first frame is gone and one more is
  -- counted. Or nothing is used and the own state of the device is as before, and then the chain
  -- has too little room for the header and the frame, or a write to the guest failed. A chain that
  -- cannot be read uses nothing and only marks the device as failed.
  pub net_fill_rx-IsDelivery :
      (frame : List ℕ) (frames : List (List ℕ)) (head : ℕ) (d : Device M Net)
      → let q = queue_of net_queue_rx d in
        IsDelivery frame frames
          (run (read_chain ops q.num q.desc head) d)
          (net_fill_rx ops frame frames head d)
  unfolding net_fill_rx
  net_fill_rx-IsDelivery frame frames head d =
      let q = queue_of net_queue_rx d in
      on_net_rx_chain-IsDelivery frame frames (run (read_chain ops q.num q.desc head) d)
