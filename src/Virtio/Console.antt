-- ===== src/Virtio/Console.antt =====
-- internal/dev/virtio_console.go: the console on top of the shared registers and queues.
pub mod Rx
pub mod Stuck
use rvwasm.Base.{
  ℕ, ◌+◌, ◌*◌, ◌%◌, ◌-◌, ◌^◌, min, Bool, true, false, not, ◌||◌, List, [], ◌∷◌, ◌++◌, some, ltb,
  ◌==◌, if◌then◌else◌, add64, add32, sub64,
}
use rvwasm.Base.Arrays.{length, take, drop}
use rvwasm.Dev.Registers.{partial_read32}
use rvwasm.Virtio.Guest.{Memory, Answer, ok, err, copy_from_guest}
use rvwasm.Virtio.Chain.{VirtqDesc, is_writable, read_chain}
use rvwasm.Virtio.Transport.{Kind, Signal, Failure, ring_features}
use rvwasm.Virtio.Registers.{register_read}
use rvwasm.Virtio.Queue.{
  Device, Run, Round, Next, run, rounds, fail, queue_of, queue_ready, next_head, publish_used,
  process_tx, copy_out, write_registers,
}

abbrev pub virtio_console_base : ℕ
virtio_console_base = 0x1000_2000

-- Bit 0 is `virtioConsoleFSizeBit`.
abbrev pub console_kind : Kind
console_kind = record {
  base = virtio_console_base;
  device_id = 3;
  queue_count = 2;
  features0 = 2 ^ 0 + ring_features;
  exact = false;
  single = false;
  shows_unselected = false;
}

-- `out` holds the bytes of the calls of `Out`, the first call first.
pub record Console : Type 0 where
  pub rx : List ℕ
  pub out : List ℕ
  pub last_tx_bytes : ℕ
  pub last_rx_bytes : ℕ

abbrev pub queue_rx : ℕ
queue_rx = 0

abbrev pub queue_tx : ℕ
queue_tx = 1

module _ {M : Type 0} where
  -- The configuration: 80 columns and 25 rows, one port.
  unfoldable pub console_read : Device M Console → ℕ → ℕ → ℕ
  console_read d addr size =
      let off = sub64 addr virtio_console_base in
      let reg = off - off % 4 in
      if ltb off 0x100
      then register_read console_kind d.regs off size
      else if reg == 0x100
      then partial_read32 (80 + 25 * 2 ^ 16) (off % 4) size
      else if reg == 0x104
      then partial_read32 1 (off % 4) size
      else 0

  unfoldable pub take_rx : ℕ → Device M Console → Device M Console
  take_rx n d = record d {
    own = record d.own { rx = drop n d.own.rx; last_rx_bytes = add64 d.own.last_rx_bytes n };
  }

  unfoldable pub send_out : List ℕ → ℕ → Device M Console → Device M Console
  send_out bytes n d = record d {
    own = record d.own { out = d.own.out ++ bytes; last_tx_bytes = add64 d.own.last_tx_bytes n };
  }

module _ {M : Type 0} (ops : Memory M) where
  unfoldable pub on_tx_data :
      ℕ
      → ℕ
      → (ℕ → Device M Console → ℕ × Device M Console)
      → Answer (List ℕ) × Device M Console
      → ℕ × Device M Console
  on_tx_data n used rest (err e, d) = (used, fail Failure.no_data d)
  on_tx_data n used rest (ok buf, d) = rest (add32 used n) (send_out buf n d)

  unfoldable pub tx_descs : List VirtqDesc → ℕ → Device M Console → ℕ × Device M Console
  tx_descs [] used d = (used, d)
  tx_descs (x ∷ xs) used d =
      let rest = tx_descs xs in
      if is_writable x || x.len == 0
      then rest used d
      else on_tx_data x.len used rest (run (copy_from_guest ops x.len x.addr) d)

  unfoldable pub on_tx_chain : Answer (List VirtqDesc) × Device M Console → ℕ × Device M Console
  on_tx_chain (err e, d) = (0, fail (Failure.bad_chain e) d)
  on_tx_chain (ok descs, d) = tx_descs descs 0 d

  unfoldable pub consume_tx : ℕ → Device M Console → ℕ × Device M Console
  consume_tx head d =
      let q = queue_of queue_tx d in on_tx_chain (run (read_chain ops q.num q.desc head) d)

  unfoldable pub on_rx_copied :
      ℕ
      → ℕ
      → (ℕ → Device M Console → ℕ × Device M Console)
      → Bool × Device M Console
      → ℕ × Device M Console
  on_rx_copied n used rest (false, d) = (used, fail Failure.no_data d)
  on_rx_copied n used rest (true, d) =
      let d' = take_rx n d in
      if length d'.own.rx == 0 then (add32 used n, d') else rest (add32 used n) d'

  unfoldable pub rx_descs : List VirtqDesc → ℕ → Device M Console → ℕ × Device M Console
  rx_descs [] used d = (used, d)
  rx_descs (x ∷ xs) used d =
      let rest = rx_descs xs in
      let n = min x.len (length d.own.rx) in
      if not (is_writable x) || x.len == 0
      then rest used d
      else if n == 0
      then (used, d)
      else on_rx_copied n used rest (copy_out ops x.addr (take n d.own.rx) d)

  unfoldable pub on_rx_chain : Answer (List VirtqDesc) × Device M Console → ℕ × Device M Console
  on_rx_chain (err e, d) = (0, fail (Failure.bad_chain e) d)
  on_rx_chain (ok descs, d) = rx_descs descs 0 d

  unfoldable pub fill_rx : ℕ → Device M Console → ℕ × Device M Console
  fill_rx head d =
      let q = queue_of queue_rx d in on_rx_chain (run (read_chain ops q.num q.desc head) d)

  unfoldable pub on_rx_filled : ℕ → ℕ × Device M Console → Round (Device M Console)
  on_rx_filled head (used, d) =
      let (published, d') = publish_used ops queue_rx head used d in
      if used == 0 then Round.stopped d' else Round.again d'

  unfoldable pub on_rx_head : Next (Device M Console) → Round (Device M Console)
  on_rx_head (Next.none_left d) = Round.stopped d
  on_rx_head (Next.found head d) = on_rx_filled head (fill_rx head d)

  unfoldable pub rx_round : Device M Console → Round (Device M Console)
  rx_round d =
      if length d.own.rx == 0 then Round.stopped d else on_rx_head (next_head ops queue_rx d)

  unfoldable pub process_rx : ℕ → Device M Console → Run (Device M Console)
  process_rx fuel d =
      if length d.own.rx == 0 || not (queue_ready queue_rx d)
      then Run.finished d
      else rounds rx_round fuel d

  unfoldable pub console_process_tx : ℕ → Device M Console → Run (Device M Console)
  console_process_tx fuel d = process_tx ops queue_tx (λ head d. some (consume_tx head d)) fuel d

  unfoldable pub inject : ℕ → List ℕ → Device M Console → Run (Device M Console)
  inject fuel bytes d =
      if length bytes == 0
      then Run.finished d
      else process_rx fuel (record d { own = record d.own { rx = d.own.rx ++ bytes } })

  unfoldable pub console_follow : ℕ → Device M Console × Signal → Run (Device M Console)
  console_follow fuel (d, Signal.notified q) =
      if q == queue_rx
      then process_rx fuel d
      else if q == queue_tx
      then console_process_tx fuel d
      else Run.finished d
  console_follow fuel (d, s) = Run.finished d

  unfoldable pub console_write : ℕ → ℕ → ℕ → ℕ → Device M Console → Run (Device M Console)
  console_write fuel addr size val d =
      console_follow fuel (write_registers console_kind addr size val d)
