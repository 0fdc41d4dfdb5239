-- ===== src/Virtio/Block/Ends.antt =====
-- When the work of the block device on its queue ends (`processQueue` in internal/dev/virtio_blk.go).
use rvwasm.Base.{
  ℕ, ◌*◌, ◌^◌, ◌<◌, Bool, true, false, not, ◌||◌, List, [], ◌∷◌, refl, none, some, ltb, ◌==◌,
  if-keeps, Option-cases, inl, inr, add64, add32, u64,
}
use rvwasm.Base.Arrays.{length, take, drop}
use rvwasm.Virtio.Guest.{Memory, Answer, ok, err, read32, read64, copy_from_guest}
use rvwasm.Virtio.Guest.Keeps.{
  AreKeptByReads, AreKeptByWrites, read32-Keeps, read64-Keeps, copy_from_guest-Keeps,
}
use rvwasm.Virtio.Chain.{VirtqDesc, is_writable, read_chain}
use rvwasm.Virtio.Chain.Keeps.{read_chain-Keeps}
use rvwasm.Virtio.Transport.{VirtQueue, Failure}
use rvwasm.Virtio.Queue.{Device, run, queue_of, queue_round}
use rvwasm.Virtio.Queue.Ends.{Ended, IsKept}
use rvwasm.Virtio.Queue.Position.{IsAt, run-IsAt, fail-IsAt, put-IsAt, copy_out-IsAt}
use rvwasm.Virtio.Queue.Steady.{ReadsAvail, IsServed, process_queue-Ended}
use rvwasm.Virtio.Block.{
  Transfer, on_sent, send_disk, overwrite, on_received, receive_disk, on_id, send_id, transfer,
  on_transfer, serve_request, on_request, process_request, block_process, set_status, status_place,
  all_but_last, or_zero, virtio_blk_sio_err, virtio_blk_sector_size,
}

module _ {M : Type 0} (ops : Memory M) (J : M → Type 0) (reads : AreKeptByReads ops J)
    (writes : AreKeptByWrites ops J) (q : VirtQueue) (l : ℕ) where
  abbrev At : Device M (List ℕ) → Type 0
  At d = IsAt J 0 q l d

  -- The transfer leaves the device where it is, if it does not panic.
  IsMoved : Transfer M → Type 0
  IsMoved none = Unit
  IsMoved (some (good, used, d)) = At d

  moved : (good : Bool) (used : ℕ) (d : Device M (List ℕ)) → At d → IsMoved (some (good, used, d))
  unfolding IsMoved
  moved good used d h = h

  on_sent-IsMoved :
      (used : ℕ) (rest : Device M (List ℕ) → Transfer M) (p : Bool × Device M (List ℕ))
      → At p.1
      → ((d : Device M (List ℕ)) → At d → IsMoved (rest d))
      → IsMoved (on_sent ops used rest p)
  unfolding on_sent IsMoved
  on_sent-IsMoved used rest (false, d) h k = fail-IsAt J 0 q l Failure.no_data d h
  on_sent-IsMoved used rest (true, d) h k = k d h

  send_disk-IsMoved :
      (xs : List VirtqDesc) (off used : ℕ) (d : Device M (List ℕ))
      → At d
      → IsMoved (send_disk ops xs off used d)
  unfolding send_disk IsMoved
  send_disk-IsMoved [] off used d h = h
  send_disk-IsMoved (x ∷ xs) off used d h =
      let end = add64 off x.len in
      if-keeps IsMoved (not (is_writable x) || ltb (length d.own) end) h (
        if-keeps IsMoved (ltb end off) tt (
          on_sent-IsMoved used _ _
            (copy_out-IsAt ops J reads 0 q writes l x.addr (take x.len (drop off d.own)) d h)
            (λ d' h'. send_disk-IsMoved xs end (add32 used x.len) d' h')))

  on_received-IsMoved :
      (off end used : ℕ) (rest : Device M (List ℕ) → Transfer M)
      (p : Answer (List ℕ) × Device M (List ℕ))
      → At p.1
      → ((d : Device M (List ℕ)) → At d → IsMoved (rest d))
      → IsMoved (on_received ops off end used rest p)
  unfolding on_received IsMoved IsAt
  on_received-IsMoved off end used rest (err e, d) h k = fail-IsAt J 0 q l Failure.no_data d h
  on_received-IsMoved off end used rest (ok buf, d) h k =
      if-keeps IsMoved (ltb end off) tt (k (record d { own = overwrite off buf d.own }) h)

  receive_disk-IsMoved :
      (xs : List VirtqDesc) (off used : ℕ) (d : Device M (List ℕ))
      → At d
      → IsMoved (receive_disk ops xs off used d)
  unfolding receive_disk IsMoved
  receive_disk-IsMoved [] off used d h = h
  receive_disk-IsMoved (x ∷ xs) off used d h =
      let end = add64 off x.len in
      if-keeps IsMoved (is_writable x || ltb (length d.own) end) h (
        on_received-IsMoved off end used _ _
          (run-IsAt J 0 q l (copy_from_guest ops x.len x.addr) d
            (copy_from_guest-Keeps ops J reads x.len x.addr) h)
          (λ d' h'. receive_disk-IsMoved xs end used d' h'))

  send_id-IsMoved :
      (xs : List VirtqDesc) (used : ℕ) (d : Device M (List ℕ))
      → At d
      → IsMoved (send_id ops xs used d)
  unfolding send_id on_id IsMoved
  send_id-IsMoved [] used d h = h
  send_id-IsMoved (x ∷ xs) used d h =
      if-keeps IsMoved (is_writable x) (copy_out-IsAt ops J reads 0 q writes l x.addr _ d h) h

  transfer-IsMoved :
      (typ sector : ℕ) (xs : List VirtqDesc) (d : Device M (List ℕ))
      → At d
      → IsMoved (transfer ops typ sector xs d)
  unfolding transfer
  transfer-IsMoved typ sector xs d h =
      let off = u64 (sector * virtio_blk_sector_size) in
      if-keeps IsMoved (typ == 0) (send_disk-IsMoved xs off 1 d h) (
        if-keeps IsMoved (typ == 1) (receive_disk-IsMoved xs off 1 d h) (
          if-keeps IsMoved (typ == 4) (moved true 1 d h)
            (if-keeps IsMoved (typ == 8) (send_id-IsMoved xs 1 d h) (moved false 1 d h))))

  set_status-IsAt :
      (descs : List VirtqDesc) (status : ℕ) (d : Device M (List ℕ))
      → At d
      → At (set_status ops descs status d)
  unfolding set_status IsAt
  set_status-IsAt descs status d h = elim (Option-cases (status_place descs)) [
    | inl e ↦ rw (set_status, e) h
    | inr (x, e) ↦ rw (set_status, e) (put-IsAt ops J reads 0 q writes l 1 x.addr status d h)
  ]

  on_transfer-IsServed :
      (descs : List VirtqDesc) (t : Transfer M)
      → IsMoved t
      → IsServed J 0 q l (on_transfer ops descs t)
  unfolding on_transfer IsServed IsMoved
  on_transfer-IsServed descs none h = tt
  on_transfer-IsServed descs (some (good, used, d)) h = set_status-IsAt descs _ d h

  or_zero-IsAt : (p : Answer ℕ × Device M (List ℕ)) → At p.1 → At (or_zero p).1
  or_zero-IsAt (ok v, d) h = h
  or_zero-IsAt (err e, d) h = h

  served :
      (used : ℕ) (descs : List VirtqDesc) (status : ℕ) (d : Device M (List ℕ))
      → At d
      → IsServed J 0 q l (some (used, set_status ops descs status d))
  unfolding IsServed
  served used descs status d h = set_status-IsAt descs status d h

  serve_request-IsServed :
      (x y : VirtqDesc) (zs : List VirtqDesc) (d : Device M (List ℕ))
      → At d
      → IsServed J 0 q l (serve_request ops x y zs d)
  unfolding serve_request
  serve_request-IsServed x y zs d h =
      let p1 = run (read32 ops x.addr) d in
      let h1 =
        or_zero-IsAt p1
          (run-IsAt J 0 q l (read32 ops x.addr) d (read32-Keeps ops J reads x.addr) h) in
      let a = add64 x.addr 8 in
      let d1 = (or_zero p1).1 in
      let p2 = run (read64 ops a) d1 in
      let h2 =
        or_zero-IsAt p2 (run-IsAt J 0 q l (read64 ops a) d1 (read64-Keeps ops J reads a) h1) in
      if-keeps (IsServed J 0 q l) _ (served 0 (x ∷ y ∷ zs) virtio_blk_sio_err (or_zero p2).1 h2) (
        on_transfer-IsServed (x ∷ y ∷ zs) _
          (transfer-IsMoved (or_zero p1).0 (or_zero p2).0 (all_but_last y zs) (or_zero p2).1 h2))

  on_request-IsServed :
      (p : Answer (List VirtqDesc) × Device M (List ℕ))
      → At p.1
      → IsServed J 0 q l (on_request ops p)
  unfolding on_request IsServed
  on_request-IsServed (err e, d) h = fail-IsAt J 0 q l (Failure.bad_chain e) d h
  on_request-IsServed (ok [], d) h = h
  on_request-IsServed (ok (x ∷ []), d) h = set_status-IsAt (x ∷ []) _ d h
  on_request-IsServed (ok (x ∷ y ∷ zs), d) h =
      if-keeps (IsServed J 0 q l) (ltb x.len 16) (served 1 (x ∷ y ∷ zs) virtio_blk_sio_err d h)
        (serve_request-IsServed x y zs d h)

  process_request-IsServed :
      (head : ℕ) (d : Device M (List ℕ)) → At d → IsServed J 0 q l (process_request ops head d)
  unfolding process_request
  process_request-IsServed head d h =
      let r = queue_of 0 d in
      on_request-IsServed _ (
        run-IsAt J 0 q l (read_chain ops r.num r.desc head) d
          (read_chain-Keeps ops J reads r.num r.desc head) h)

any-AreKeptByReads : {M : Type 0} (ops : Memory M) → AreKeptByReads ops (λ _. Unit)
unfolding AreKeptByReads
any-AreKeptByReads ops m addr size h = tt

any-AreKeptByWrites : {M : Type 0} (ops : Memory M) → AreKeptByWrites ops (λ _. Unit)
unfolding AreKeptByWrites
any-AreKeptByWrites ops m addr size val h = tt

-- If the bus gives the same 16-bit index of the available ring at the start of every round that
-- the work of the block device on its queue comes to, then this work ends within 65536 rounds,
-- from any place in the ring, whatever else the rounds write and whatever the chains and requests
-- hold: it runs to its end, or into a panic of a request. The states at the start of a round are
-- given by a predicate that holds of the first and that a round which goes on keeps.
pub block_process-Ended :
    {M : Type 0} (ops : Memory M) (K : Device M (List ℕ) → Type 0) (idx : ℕ) (d : Device M (List ℕ))
    → IsKept K (queue_round ops 0 (process_request ops))
    → ReadsAvail ops 0 idx K
    → K d
    → idx < 2 ^ 16
    → (queue_of 0 d).last_avail < 2 ^ 16
    → Ended (block_process ops (2 ^ 16) d)
unfolding block_process IsAt
block_process-Ended ops K idx d kept index start a b =
    let q = queue_of 0 d in
    let any = λ (_ : _). Unit in
    let reads = any-AreKeptByReads ops in
    let writes = any-AreKeptByWrites ops in
    process_queue-Ended ops any reads writes 0 q (process_request ops)
      (λ l head d' h'. process_request-IsServed ops any reads writes q l head d' h') idx K kept
      index a q.last_avail d b (tt, refl) start
