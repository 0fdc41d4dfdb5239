-- ===== src/Virtio/Block.antt =====
-- internal/dev/virtio_blk.go: the block device on top of the shared registers and queue.
pub mod Disk
pub mod Request
pub mod Stored
pub mod Ends
use rvwasm.Base.{
  ℕ, zero, suc, ◌+◌, ◌*◌, ◌/◌, ◌%◌, ◌-◌, ◌^◌, min, Bool, true, false, not, ◌&&◌, ◌||◌, List, [],
  ◌∷◌, ◌++◌, Option, none, some, ltb, leb, ◌==◌, if◌then◌else◌, add64, add32, sub64, u64,
}
use rvwasm.Base.Arrays.{length, take, drop, zeros}
use rvwasm.Dev.Registers.{partial_read64}
use rvwasm.Virtio.Guest.{Memory, ChainError, Answer, ok, err, read32, read64, copy_from_guest}
use rvwasm.Virtio.Chain.{VirtqDesc, is_writable, read_chain}
use rvwasm.Virtio.Transport.{Kind, Signal, Failure, Transport, ring_features, cleared}
use rvwasm.Virtio.Registers.{register_read}
use rvwasm.Virtio.Queue.{
  Device, Run, run, fail, put, copy_out, queue_of, process_queue, write_registers,
}

abbrev pub virtio_block_base : ℕ
virtio_block_base = 0x1000_1000

-- Bit 9 is `virtioBlkFFlushBit`.
abbrev pub block_kind : Kind
block_kind = record {
  base = virtio_block_base;
  device_id = 2;
  queue_count = 1;
  features0 = 2 ^ 9 + ring_features;
  exact = true;
  single = true;
  shows_unselected = true;
}

abbrev pub virtio_blk_sector_size : ℕ
virtio_blk_sector_size = 512

abbrev pub virtio_blk_sok : ℕ
virtio_blk_sok = 0

abbrev pub virtio_blk_sio_err : ℕ
virtio_blk_sio_err = 1

-- "rvwasm-virtio-blk"
abbrev pub disk_id : List ℕ
disk_id =
    114 ∷ 118 ∷ 119 ∷ 97 ∷ 115 ∷ 109 ∷ 45 ∷ 118 ∷ 105 ∷ 114 ∷ 116 ∷ 105 ∷ 111 ∷ 45 ∷ 98 ∷ 108 ∷ 107
    ∷ []

-- Whole sectors, and at least one.
unfoldable pub padded : List ℕ → List ℕ
padded [] = zeros virtio_blk_sector_size
padded (b ∷ bs) =
    let rem = length (b ∷ bs) % virtio_blk_sector_size in
    if rem == 0 then b ∷ bs else (b ∷ bs) ++ zeros (virtio_blk_sector_size - rem)

unfoldable pub capacity_sectors : List ℕ → ℕ
capacity_sectors disk = length disk / virtio_blk_sector_size

abbrev pub last_of : VirtqDesc → List VirtqDesc → VirtqDesc
last_of d [] = d
last_of d (e ∷ ds) = last_of e ds

-- `descs[:len(descs)-1]`
abbrev pub all_but_last : VirtqDesc → List VirtqDesc → List VirtqDesc
all_but_last d [] = []
all_but_last d (e ∷ ds) = d ∷ all_but_last e ds

-- The last descriptor that `setStatus` may write to.
unfoldable pub status_place : List VirtqDesc → Option VirtqDesc
status_place [] = none
status_place (d ∷ ds) = elim (status_place ds) [
  | some e ↦ some e
  | none ↦ if is_writable d && not (d.len == 0) then some d else none
]

-- `copy(v.disk[off:off+n], buf)`
unfoldable pub overwrite : ℕ → List ℕ → List ℕ → List ℕ
overwrite off buf disk = take off disk ++ buf ++ drop (off + length buf) disk

-- A read that fails has the value 0.
abbrev pub or_zero : {M : Type 0} → Answer ℕ × Device M (List ℕ) → ℕ × Device M (List ℕ)
or_zero (ok v, d) = (v, d)
or_zero (err e, d) = (0, d)

module _ {M : Type 0} where
  unfoldable pub set_disk : List ℕ → Device M (List ℕ) → Device M (List ℕ)
  set_disk disk d =
      let t = d.regs in
      record d {
        own = padded disk;
        regs = record t { config_generation = (t.config_generation + 1) % 2 ^ 32 };
      }

  unfoldable pub block_read : Device M (List ℕ) → ℕ → ℕ → ℕ
  block_read d addr size =
      let off = sub64 addr virtio_block_base in
      if ltb off 0x100
      then register_read block_kind d.regs off size
      else if ltb off 0x108
      then partial_read64 (capacity_sectors d.own) (off - 0x100) size
      else 0

-- The data part of a request: whether the status stays good, the bytes used, the device. No result is
-- a panic: a slice of the disk that ends before it starts.
abbrev pub Transfer : Type 0 → Type 0
Transfer M = Option (Bool × ℕ × Device M (List ℕ))

module _ {M : Type 0} (ops : Memory M) where
  unfoldable pub set_status : List VirtqDesc → ℕ → Device M (List ℕ) → Device M (List ℕ)
  set_status descs status d = elim (status_place descs) [
    | none ↦ d
    | some e ↦ put ops 1 e.addr status d
  ]

  unfoldable pub on_sent :
      ℕ → (Device M (List ℕ) → Transfer M) → Bool × Device M (List ℕ) → Transfer M
  on_sent used rest (false, d) = some (false, used, fail Failure.no_data d)
  on_sent used rest (true, d) = rest d

  -- The loop of a read request.
  unfoldable pub send_disk : List VirtqDesc → ℕ → ℕ → Device M (List ℕ) → Transfer M
  send_disk [] off used d = some (true, used, d)
  send_disk (x ∷ xs) off used d =
      let end = add64 off x.len in
      let rest = send_disk xs end (add32 used x.len) in
      if not (is_writable x) || ltb (length d.own) end
      then some (false, used, d)
      else if ltb end off
      then none
      else on_sent used rest (copy_out ops x.addr (take x.len (drop off d.own)) d)

  unfoldable pub on_received :
      ℕ
      → ℕ
      → ℕ
      → (Device M (List ℕ) → Transfer M)
      → Answer (List ℕ) × Device M (List ℕ)
      → Transfer M
  on_received off end used rest (err e, d) = some (false, used, fail Failure.no_data d)
  on_received off end used rest (ok buf, d) =
      if ltb end off then none else rest (record d { own = overwrite off buf d.own })

  -- The loop of a write request.
  unfoldable pub receive_disk : List VirtqDesc → ℕ → ℕ → Device M (List ℕ) → Transfer M
  receive_disk [] off used d = some (true, used, d)
  receive_disk (x ∷ xs) off used d =
      let end = add64 off x.len in
      let rest = receive_disk xs end used in
      if is_writable x || ltb (length d.own) end
      then some (false, used, d)
      else on_received off end used rest (run (copy_from_guest ops x.len x.addr) d)

  unfoldable pub on_id : ℕ → ℕ → Bool × Device M (List ℕ) → Transfer M
  on_id n used (copied, d) = some (copied, if copied then add32 used n else used, d)

  -- The identifier goes to the first data descriptor.
  unfoldable pub send_id : List VirtqDesc → ℕ → Device M (List ℕ) → Transfer M
  send_id [] used d = some (true, used, d)
  send_id (x ∷ xs) used d =
      let n = min x.len (length disk_id) in
      if is_writable x
      then on_id n used (copy_out ops x.addr (take n disk_id) d)
      else some (false, used, d)

  -- The `switch` on the type of the request.
  unfoldable pub transfer : ℕ → ℕ → List VirtqDesc → Device M (List ℕ) → Transfer M
  transfer typ sector xs d =
      let off = u64 (sector * virtio_blk_sector_size) in
      if typ == 0
      then send_disk xs off 1 d
      else if typ == 1
      then receive_disk xs off 1 d
      else if typ == 4
      then some (true, 1, d)
      else if typ == 8
      then send_id xs 1 d
      else some (false, 1, d)

  unfoldable pub on_transfer : List VirtqDesc → Transfer M → Option (ℕ × Device M (List ℕ))
  on_transfer descs none = none
  on_transfer descs (some (good, used, d)) =
      some (used, set_status descs (if good then virtio_blk_sok else virtio_blk_sio_err) d)

  -- A request of a header, data descriptors and a status descriptor, `y` and those after it.
  unfoldable pub serve_request :
      VirtqDesc → VirtqDesc → List VirtqDesc → Device M (List ℕ) → Option (ℕ × Device M (List ℕ))
  serve_request x y zs d =
      let (typ, d1) = or_zero (run (read32 ops x.addr) d) in
      let (sector, d2) = or_zero (run (read64 ops (add64 x.addr 8)) d1) in
      let last = last_of y zs in
      if last.len == 0 || not (is_writable last)
      then some (0, set_status (x ∷ y ∷ zs) virtio_blk_sio_err d2)
      else on_transfer (x ∷ y ∷ zs) (transfer typ sector (all_but_last y zs) d2)

  unfoldable pub on_request :
      Answer (List VirtqDesc) × Device M (List ℕ) → Option (ℕ × Device M (List ℕ))
  on_request (err e, d) = some (0, fail (Failure.bad_chain e) d)
  on_request (ok [], d) = some (1, d)
  on_request (ok (x ∷ []), d) = some (1, set_status (x ∷ []) virtio_blk_sio_err d)
  on_request (ok (x ∷ y ∷ zs), d) =
      if ltb x.len 16
      then some (1, set_status (x ∷ y ∷ zs) virtio_blk_sio_err d)
      else serve_request x y zs d

  unfoldable pub process_request : ℕ → Device M (List ℕ) → Option (ℕ × Device M (List ℕ))
  process_request head d =
      let q = queue_of 0 d in on_request (run (read_chain ops q.num q.desc head) d)

  unfoldable pub block_process : ℕ → Device M (List ℕ) → Run (Device M (List ℕ))
  block_process fuel d = process_queue ops 0 process_request fuel d

  unfoldable pub block_follow : ℕ → Device M (List ℕ) × Signal → Run (Device M (List ℕ))
  block_follow fuel (d, Signal.notified q) = if q == 0 then block_process fuel d else Run.finished d
  block_follow fuel (d, s) = Run.finished d

  unfoldable pub block_write : ℕ → ℕ → ℕ → ℕ → Device M (List ℕ) → Run (Device M (List ℕ))
  block_write fuel addr size val d = block_follow fuel (write_registers block_kind addr size val d)
