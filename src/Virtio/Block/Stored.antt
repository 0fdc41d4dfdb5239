-- ===== src/Virtio/Block/Stored.antt =====
-- A write request and a read request of the same sectors (`processRequest` in internal/dev/virtio_blk.go).
use mathlib.Core.List.{append_assoc}
use rvwasm.Base.{
  ℕ, ◌+◌, ◌*◌, ◌^◌, ◌≤◌, ◌<◌, true, false, List, [], ◌∷◌, ◌++◌, ◌≡◌, refl, sym, ap, ◌∙◌, subst,
  arith, some, ltb, add64, add32, u64,
}
use rvwasm.Base.Arrays.{length, take, drop, length-take, take-++, drop-++}
use rvwasm.Virtio.Guest.{Memory, Answer, ok, copy_from_guest}
use rvwasm.Virtio.Guest.Holds.{Holds}
use rvwasm.Virtio.Chain.{VirtqDesc, is_writable}
use rvwasm.Virtio.Queue.{Device, run, copy_out}
use rvwasm.Virtio.Block.{
  on_sent, send_disk, overwrite, on_received, receive_disk, transfer, virtio_blk_sector_size,
}
use rvwasm.Virtio.Block.Disk.{copy_from_guest-length, length-overwrite, run-Holds}

-- The bytes of an overwritten disk at the place of the write.
overwrite-read :
    (off : ℕ) (buf disk : List ℕ)
    → off ≤ length disk
    → take (length buf) (drop off (overwrite off buf disk)) ≡ buf
unfolding overwrite
overwrite-read off buf disk h =
    let front = take off disk in
    let tail = drop (off + length buf) disk in
    let size : length front ≡ off = let t = length-take off disk in omega arith in
    let cut : drop off (front ++ (buf ++ tail)) ≡ buf ++ tail =
      subst (λ (k : ℕ). drop k (front ++ (buf ++ tail)) ≡ buf ++ tail) size
        (drop-++ front (buf ++ tail)) in
    ap (λ (xs : List ℕ). take (length buf) (drop off xs)) (append_assoc front buf tail)
    ∙ ap (take (length buf)) cut
    ∙ take-++ buf tail

module _ {M : Type 0} (ops : Memory M) where
  receive_one :
      (x : VirtqDesc) (off : ℕ) (buf : List ℕ) (d d1 : Device M (List ℕ))
      → run (copy_from_guest ops x.len x.addr) d ≡ (ok buf, d1)
      → is_writable x ≡ false
      → off + x.len ≤ length d.own
      → length d.own < 2 ^ 64
      → receive_disk ops (x ∷ []) off 1 d
        ≡ some (true, 1, record d1 { own = overwrite off buf d.own })
  unfolding receive_disk on_received run
  receive_one x off buf d d1 got rx fits small =
      let inside : ltb (length d.own) (add64 off x.len) ≡ false = ground arith in
      let ordered : ltb (add64 off x.len) off ≡ false = ground arith in
      let disk : d1.own ≡ d.own =
        sym (ap (λ (p : Answer (List ℕ) × Device M (List ℕ)). p.1.own) got) in
      rw (rx, inside, got, ordered, disk) refl

  send_one :
      (y : VirtqDesc) (off : ℕ) (buf : List ℕ) (d : Device M (List ℕ))
      → take y.len (drop off d.own) ≡ buf
      → is_writable y ≡ true
      → off + y.len ≤ length d.own
      → length d.own < 2 ^ 64
      → send_disk ops (y ∷ []) off 1 d
        ≡ on_sent ops 1 (λ d3. some (true, add32 1 y.len, d3)) (copy_out ops y.addr buf d)
  unfolding send_disk
  send_one y off buf d same wy fits small =
      let inside : ltb (length d.own) (add64 off y.len) ≡ false = ground arith in
      let ordered : ltb (add64 off y.len) off ≡ false = ground arith in
      rw (wy, inside, ordered, same) refl

-- A write request with one data descriptor that lies within the disk stores the bytes read from
-- the guest at its sector, and a read request of that sector and length on a device with that disk
-- copies exactly those bytes to the guest.
pub transfer-stored :
    {M : Type 0} (ops : Memory M) (sector : ℕ) (x y : VirtqDesc) (buf : List ℕ)
    (d d1 d2 : Device M (List ℕ))
    → run (copy_from_guest ops x.len x.addr) d ≡ (ok buf, d1)
    → is_writable x ≡ false
    → is_writable y ≡ true
    → y.len ≡ x.len
    → sector * virtio_blk_sector_size + x.len ≤ length d.own
    → length d.own < 2 ^ 64
    → let stored = overwrite (sector * virtio_blk_sector_size) buf d.own in
      (transfer ops 1 sector (x ∷ []) d ≡ some (true, 1, record d1 { own = stored }))
      × (d2.own ≡ stored
          → transfer ops 0 sector (y ∷ []) d2
            ≡ on_sent ops 1 (λ d3. some (true, add32 1 y.len, d3)) (copy_out ops y.addr buf d2))
unfolding transfer Holds
transfer-stored {M} ops sector x y buf d d1 d2 got rx wy same fits small =
    let place : u64 (sector * virtio_blk_sector_size) ≡ sector * virtio_blk_sector_size =
      omega arith in
    let off = sector * virtio_blk_sector_size in
    let size : length buf ≡ x.len =
      subst
        (λ (p : Answer (List ℕ) × Device M (List ℕ)). Holds (λ (bs : List ℕ). length bs ≡ x.len) p)
        got (run-Holds ops 0 Unit _ _ d (copy_from_guest-length ops x.len x.addr d.mem)) in
    let whole = length-overwrite off buf d.own (omega arith) in
    rw place (
      receive_one ops x off buf d d1 got rx fits small,
      λ e.
          let l : length d2.own ≡ length d.own = ap length e ∙ whole in
          send_one ops y off buf d2
            (subst (λ (n : ℕ). take n (drop off d2.own) ≡ buf) (size ∙ sym same)
              (ap (λ (o : List ℕ). take (length buf) (drop off o)) e
                ∙ overwrite-read off buf d.own (omega arith)))
            wy (omega arith) (omega arith),
    )
