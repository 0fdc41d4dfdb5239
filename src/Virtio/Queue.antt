-- ===== src/Virtio/Queue.antt =====
-- The work on a queue that the devices share (`processQueue`, `processTx`, `publishUsed`,
-- `shouldInterrupt`, `queueReady`, `fail` and `updateIRQ` in internal/dev/virtio_*.go).
pub mod Ends
pub mod Position
pub mod Steady
pub mod Event
use rvwasm.Base.{
  ℕ, zero, suc, ◌+◌, ◌*◌, ◌%◌, ◌^◌, ◌-◌, Bool, true, false, not, ◌&&◌, List, ◌∷◌, ◌++◌, sub64, ltb,
  leb, ◌==◌, if◌then◌else◌, has, bit_or, add64, u16, Option, none, some,
}
use rvwasm.Virtio.Guest.{Memory, ChainError, Answer, ok, err, Guest, read16, copy_to_guest}
use rvwasm.Virtio.Transport.{
  Transport, Kind, Signal, VirtQueue, Failure, set_failed, irq_level, set_queue,
  virtio_status_driver_ok, virtio_irq_used_buffer, virtio_queue_size,
}
use rvwasm.Virtio.Registers.{register_write}

-- A device: the memory that it shares with the guest, its registers, what is its own, and the calls of
-- `IRQ` so far, the latest first.
pub record Device (M O : Type 0) : Type 0 where
  pub mem : M
  pub regs : Transport
  pub own : O
  pub told : List Bool

-- `panicked` is a failed bounds check of Go, which stops the program.
pub data Round (S : Type 0) : Type 0 where
  again : S → Round S
  stopped : S → Round S
  panicked : Round S

-- What a loop comes to with a number of rounds.
pub data Run (S : Type 0) : Type 0 where
  finished : S → Run S
  crashed : Run S
  unfinished : S → Run S

unfoldable pub go_on : {S : Type 0} → (S → Run S) → Round S → Run S
go_on rest (Round.again s) = rest s
go_on rest (Round.stopped s) = Run.finished s
go_on rest Round.panicked = Run.crashed

module _ {S : Type 0} (step : S → Round S) where
  unfoldable pub rounds : ℕ → S → Run S
  rounds zero s = Run.unfinished s
  rounds (suc n) s = go_on (rounds n) (step s)

-- The head of the next chain, if there is one.
pub data Next (S : Type 0) : Type 0 where
  none_left : S → Next S
  found : ℕ → S → Next S

-- On `uint16`: `newIdx-eventIdx-1 < newIdx-oldIdx`.
unfoldable pub virtq_need_event : ℕ → ℕ → ℕ → Bool
virtq_need_event event new old =
    ltb ((new + 2 ^ 17 - event - 1) % 2 ^ 16) ((new + 2 ^ 16 - old) % 2 ^ 16)

module _ {M O : Type 0} where
  unfoldable pub run : {A : Type 0} → Guest M A → Device M O → Answer A × Device M O
  run g d = let (a, m) = g d.mem in (a, record d { mem = m })

  unfoldable pub fail : Failure → Device M O → Device M O
  fail f d = record d { regs = set_failed f d.regs }

  unfoldable pub update_irq : Device M O → Device M O
  update_irq d = record d { told = irq_level d.regs ∷ d.told }

  abbrev pub queue_of : ℕ → Device M O → VirtQueue
  queue_of i d = d.regs.queues i

  unfoldable pub queue_ready : ℕ → Device M O → Bool
  queue_ready i d =
      let q = queue_of i d in
      has d.regs.status virtio_status_driver_ok
      && q.ready
      && not (q.num == 0)
      && leb q.num virtio_queue_size
      && not (q.desc == 0)
      && not (q.driver == 0)
      && not (q.device == 0)

  -- `q.lastAvail++`
  unfoldable pub advance : ℕ → Device M O → Device M O
  advance i d =
      let q = queue_of i d in
      record d { regs = set_queue i (record q { last_avail = u16 (q.last_avail + 1) }) d.regs }

  unfoldable pub raise_if : Bool × Device M O → Device M O
  raise_if (false, d) = d
  raise_if (true, d) = update_irq (record d {
    regs = record d.regs {
      interrupt_status = bit_or d.regs.interrupt_status virtio_irq_used_buffer;
    };
  })

  unfoldable pub on_event : ℕ → ℕ → Answer ℕ × Device M O → Bool × Device M O
  on_event old new (ok event, d) = (virtq_need_event event new old, d)
  on_event old new (err e, d) = (true, fail Failure.no_used_event d)

  unfoldable pub on_flags : Answer ℕ × Device M O → Bool × Device M O
  on_flags (ok flags, d) = (not (has flags 1), d)
  on_flags (err e, d) = (true, fail Failure.no_avail_flags d)

  -- The part of `Write` before the work on the queues.
  unfoldable pub write_registers : Kind → ℕ → ℕ → ℕ → Device M O → Device M O × Signal
  write_registers k addr size val d =
      let (t, calls, signal) = register_write k d.regs (sub64 addr k.base) size val in
      (record d { regs = t; told = calls ++ d.told }, signal)

  unfoldable pub on_head : Answer ℕ × Device M O → Next (Device M O)
  on_head (ok head, d) = Next.found head d
  on_head (err e, d) = Next.none_left (fail Failure.no_avail_ring d)

module _ {M O : Type 0} (ops : Memory M) where
  -- `write16` and `write32`, whose error is dropped; `v.bus.Write` of a byte too.
  unfoldable pub put : ℕ → ℕ → ℕ → Device M O → Device M O
  put size addr val d = let (written, m) = ops.write d.mem addr size val in record d { mem = m }

  unfoldable pub should_interrupt : ℕ → ℕ → ℕ → Device M O → Bool × Device M O
  should_interrupt i old new d =
      let q = queue_of i d in
      if has (d.regs.driver_features 0) (2 ^ 29)
      then on_event old new (run (read16 ops (add64 (add64 q.device 4) (q.num * 8))) d)
      else on_flags (run (read16 ops q.driver) d)

  -- `publishUsed` once the index of the used ring is read; whether it was.
  unfoldable pub on_used : ℕ → ℕ → ℕ → Answer ℕ × Device M O → Bool × Device M O
  on_used i head used (err e, d) = (false, fail Failure.no_used_idx d)
  on_used i head used (ok idx, d) =
      let q = queue_of i d in
      let new = u16 (idx + 1) in
      let off = add64 (add64 q.device 4) (idx % u16 q.num * 8) in
      let published = put 2 (add64 q.device 2) new (put 4 (add64 off 4) used (put 4 off head d)) in
      (true, raise_if (should_interrupt i idx new (advance i published)))

  unfoldable pub publish_used : ℕ → ℕ → ℕ → Device M O → Bool × Device M O
  publish_used i head used d =
      on_used i head used (run (read16 ops (add64 (queue_of i d).device 2)) d)

  unfoldable pub on_avail : ℕ → Answer ℕ × Device M O → Next (Device M O)
  on_avail i (err e, d) = Next.none_left d
  on_avail i (ok idx, d) =
      let q = queue_of i d in
      if q.last_avail == idx
      then Next.none_left d
      else on_head (run (read16 ops (add64 (add64 q.driver 4) (q.last_avail % u16 q.num * 2))) d)

  unfoldable pub next_head : ℕ → Device M O → Next (Device M O)
  next_head i d = on_avail i (run (read16 ops (add64 (queue_of i d).driver 2)) d)

  -- The rounds of `processQueue` (block and entropy devices) and of `processTx` (console and network)
  -- around what they do with a chain, which `serve` says: the bytes used, or no result for a panic.
  module _ (i : ℕ) (serve : ℕ → Device M O → Option (ℕ × Device M O)) where
    -- `processQueue` ends when `publishUsed` fails, `processTx` does not look.
    unfoldable pub on_served : Bool → ℕ → Option (ℕ × Device M O) → Round (Device M O)
    on_served careful head none = Round.panicked
    on_served careful head (some (used, d)) =
        let (published, d') = publish_used i head used d in
        if careful && not published then Round.stopped d' else Round.again d'

    unfoldable pub on_next : Bool → Next (Device M O) → Round (Device M O)
    on_next careful (Next.none_left d) = Round.stopped d
    on_next careful (Next.found head d) = on_served careful head (serve head d)

    unfoldable pub queue_round : Device M O → Round (Device M O)
    queue_round d = on_next true (next_head i d)

    unfoldable pub tx_round : Device M O → Round (Device M O)
    tx_round d = on_next false (next_head i d)

    unfoldable pub process_queue : ℕ → Device M O → Run (Device M O)
    process_queue fuel d = if queue_ready i d then rounds queue_round fuel d else Run.finished d

    unfoldable pub process_tx : ℕ → Device M O → Run (Device M O)
    process_tx fuel d = if queue_ready i d then rounds tx_round fuel d else Run.finished d

  -- `copyToGuest`
  unfoldable pub copy_out : ℕ → List ℕ → Device M O → Bool × Device M O
  copy_out addr bytes d =
      let (copied, m) = copy_to_guest ops addr bytes d.mem in (copied, record d { mem = m })
