-- ===== src/Virtio/Block/Request.antt =====
-- A whole request, from its head to its status (`processRequest` in internal/dev/virtio_blk.go).
use rvwasm.Base.{
  ℕ, List, [], ◌∷◌, ◌≡◌, refl, ap, ◌∙◌, none, some, ltb, if-keeps, Option-cases, inl, inr, add64,
}
use rvwasm.Base.Arrays.{length}
use rvwasm.Virtio.Guest.{Memory, Answer, ok, err, read32, read64}
use rvwasm.Virtio.Guest.Holds.{Holds}
use rvwasm.Virtio.Chain.{VirtqDesc, read_chain}
use rvwasm.Virtio.Chain.Shape.{IsShort, read_chain-IsShort}
use rvwasm.Virtio.Queue.{Device, run, fail, put, queue_of}
use rvwasm.Virtio.Block.{
  Transfer, on_transfer, serve_request, on_request, process_request, set_status, status_place,
  all_but_last, or_zero, virtio_blk_sio_err,
}
use rvwasm.Virtio.Block.Disk.{
  AreSized, IsChain-AreSized, Leaves, LeavesAfter, transfer-LeavesAfter, run-Holds,
}

AreSized-all_but_last :
    (y : VirtqDesc) (zs : List VirtqDesc) → AreSized (y ∷ zs) → AreSized (all_but_last y zs)
unfolding AreSized
AreSized-all_but_last y [] h = tt
AreSized-all_but_last y (z ∷ zs) (w, h) = (w, AreSized-all_but_last z zs h)

module _ {M : Type 0} where
  or_zero-own : (p : Answer ℕ × Device M (List ℕ)) → (or_zero p).1.own ≡ p.1.own
  or_zero-own (ok v, d) = refl
  or_zero-own (err e, d) = refl

module _ {M : Type 0} (ops : Memory M) where
  set_status-own :
      (descs : List VirtqDesc) (status : ℕ) (d : Device M (List ℕ))
      → (set_status ops descs status d).own ≡ d.own
  unfolding set_status put
  set_status-own descs status d = elim (Option-cases (status_place descs)) [
    | inl e ↦ rw (set_status, e) refl
    | inr (x, e) ↦ rw (set_status, e) refl
  ]

  reported :
      (n used : ℕ) (descs : List VirtqDesc) (status : ℕ) (d : Device M (List ℕ))
      → length d.own ≡ n
      → Leaves n Unit (some (used, set_status ops descs status d))
  unfolding Leaves
  reported n used descs status d e = ap length (set_status-own descs status d) ∙ e

  on_transfer-Leaves :
      (n : ℕ) (descs : List VirtqDesc) (t : Transfer M)
      → LeavesAfter n Unit t
      → Leaves n Unit (on_transfer ops descs t)
  unfolding on_transfer LeavesAfter Leaves
  on_transfer-Leaves n descs none h = tt
  on_transfer-Leaves n descs (some (good, used, d)) h = reported n used descs _ d h

  serve_request-Leaves :
      (n : ℕ) (x y : VirtqDesc) (zs : List VirtqDesc) (d : Device M (List ℕ))
      → AreSized (y ∷ zs)
      → length d.own ≡ n
      → Leaves n Unit (serve_request ops x y zs d)
  unfolding serve_request run
  serve_request-Leaves n x y zs d sized e =
      let (typ, d1) = or_zero (run (read32 ops x.addr) d) in
      let p1 = run (read32 ops x.addr) d in
      let e1 : length (or_zero p1).1.own ≡ n = ap length (or_zero-own p1) ∙ e in
      let p2 = run (read64 ops (add64 x.addr 8)) (or_zero p1).1 in
      let e2 : length (or_zero p2).1.own ≡ n = ap length (or_zero-own p2) ∙ e1 in
      if-keeps (Leaves n Unit) _ (reported n 0 (x ∷ y ∷ zs) virtio_blk_sio_err (or_zero p2).1 e2) (
        on_transfer-Leaves n (x ∷ y ∷ zs) _ (
          transfer-LeavesAfter ops n Unit (or_zero p1).0 (or_zero p2).0 (all_but_last y zs)
            (or_zero p2).1 (AreSized-all_but_last y zs sized) (λ _. tt) e2))

  on_request-Leaves :
      (n most : ℕ) (p : Answer (List VirtqDesc) × Device M (List ℕ))
      → Holds (IsShort most) p
      → length p.1.own ≡ n
      → Leaves n Unit (on_request ops p)
  unfolding on_request Holds IsShort AreSized fail Leaves
  on_request-Leaves n most (err e, d) h l = l
  on_request-Leaves n most (ok [], d) h l = l
  on_request-Leaves n most (ok (x ∷ []), d) h l = reported n 1 (x ∷ []) _ d l
  on_request-Leaves n most (ok (x ∷ y ∷ zs), d) (c, b) l =
      if-keeps (Leaves n Unit) (ltb x.len 16) (reported n 1 (x ∷ y ∷ zs) _ d l)
        (serve_request-Leaves n x y zs d (IsChain-AreSized (x ∷ y ∷ zs) c).1 l)

  -- A request to the block device, whatever its head and whatever the guest put in its
  -- descriptors, leaves the disk as long as it was, unless it panics.
  pub process_request-disk_length :
      (head : ℕ) (d : Device M (List ℕ)) → Leaves (length d.own) Unit (process_request ops head d)
  unfolding process_request run
  process_request-disk_length head d =
      let q = queue_of 0 d in
      let g = read_chain ops q.num q.desc head in
      on_request-Leaves (length d.own) _ (run g d)
        (run-Holds ops 0 Unit _ g d (read_chain-IsShort ops q.num q.desc head d.mem)) refl
