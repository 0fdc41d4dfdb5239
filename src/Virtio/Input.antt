-- ===== src/Virtio/Input.antt =====
-- internal/dev/virtio_input.go: the keyboard on top of the shared registers and queues.
pub mod Config
use rvwasm.Base.{
  ℕ, zero, suc, ◌+◌, ◌*◌, ◌/◌, ◌%◌, ◌-◌, ◌^◌, Bool, true, false, not, ◌&&◌, ◌||◌, List, [], ◌∷◌,
  ◌++◌, some, ltb, leb, ◌==◌, if◌then◌else◌, add64, add32, sub32, sub64, u8, u16, u32, bit_or,
}
use rvwasm.Base.Arrays.{length, zeros}
use rvwasm.Virtio.Guest.{Memory, Answer, ok, err, copy_from_guest}
use rvwasm.Virtio.Chain.{VirtqDesc, is_writable, read_chain}
use rvwasm.Virtio.Transport.{Kind, Signal, Failure, ring_features}
use rvwasm.Virtio.Registers.{register_read}
use rvwasm.Virtio.Queue.{
  Device, Run, Round, Next, run, rounds, fail, queue_of, queue_ready, next_head, publish_used,
  process_tx, copy_out, write_registers,
}

abbrev pub virtio_input_base : ℕ
virtio_input_base = 0x1000_5000

abbrev pub input_kind : Kind
input_kind = record {
  base = virtio_input_base;
  device_id = 18;
  queue_count = 2;
  features0 = ring_features;
  exact = false;
  single = false;
  shows_unselected = false;
}

abbrev pub queue_event : ℕ
queue_event = 0

abbrev pub queue_status : ℕ
queue_status = 1

abbrev pub ev_syn : ℕ
ev_syn = 0

abbrev pub ev_key : ℕ
ev_key = 1

abbrev pub ev_rel : ℕ
ev_rel = 2

-- `value` is the int32 of the code as the uint32 that goes over the queue.
pub record InputEvent : Type 0 where
  pub typ : ℕ
  pub code : ℕ
  pub value : ℕ

pub record Input : Type 0 where
  pub events : List InputEvent
  pub status_events : List InputEvent
  pub cfg_select : ℕ
  pub cfg_subsel : ℕ
  pub events_sent : ℕ
  pub statuses_received : ℕ

unfoldable pub event_bytes : InputEvent → List ℕ
event_bytes e =
    u8 e.typ
    ∷ e.typ / 2 ^ 8 % 2 ^ 8
    ∷ u8 e.code
    ∷ e.code / 2 ^ 8 % 2 ^ 8
    ∷ u8 e.value
    ∷ e.value / 2 ^ 8 % 2 ^ 8
    ∷ e.value / 2 ^ 16 % 2 ^ 8
    ∷ e.value / 2 ^ 24 % 2 ^ 8
    ∷ []

-- The events in a buffer; what is left at its end is no event.
unfoldable pub events_of : List ℕ → List InputEvent
events_of (a ∷ b ∷ c ∷ d ∷ e ∷ f ∷ g ∷ h ∷ rest) =
    record {
      typ = a + b * 2 ^ 8;
      code = c + d * 2 ^ 8;
      value = e + f * 2 ^ 8 + g * 2 ^ 16 + h * 2 ^ 24;
    }
    ∷ events_of rest
events_of bs = []

module _ {M : Type 0} where
  unfoldable pub with_events : List InputEvent → Device M Input → Device M Input
  with_events es d = record d { own = record d.own { events = es } }

  unfoldable pub count_sent : Device M Input → Device M Input
  count_sent d = record d { own = record d.own { events_sent = add64 d.own.events_sent 1 } }

  unfoldable pub take_status : List ℕ → Device M Input → Device M Input
  take_status buf d =
      let es = events_of buf in
      record d {
        own = record d.own {
          status_events = d.own.status_events ++ es;
          statuses_received = add64 d.own.statuses_received (length es);
        };
      }

  unfoldable pub input_reset : Device M Input → Device M Input
  input_reset d = record d {
    own = record d.own { events = []; status_events = []; cfg_select = 0; cfg_subsel = 0 };
  }

  unfoldable pub next_generation : Device M Input → Device M Input
  next_generation d =
      let t = d.regs in
      record d { regs = record t { config_generation = (t.config_generation + 1) % 2 ^ 32 } }

  -- The writes of one byte to the selectors of the configuration.
  unfoldable pub write_config : ℕ → ℕ → ℕ → Device M Input → Device M Input
  write_config off size val d =
      if off == 0x100 && size == 1
      then next_generation (record d { own = record d.own { cfg_select = u8 val } })
      else if off == 0x101 && size == 1
      then next_generation (record d { own = record d.own { cfg_subsel = u8 val } })
      else d

module _ {M : Type 0} (ops : Memory M) where
  unfoldable pub on_event_written :
      ℕ
      → (ℕ → Device M Input → Bool × ℕ × Device M Input)
      → Bool × Device M Input
      → Bool × ℕ × Device M Input
  on_event_written used rest (false, d) = (false, used, fail Failure.no_data d)
  on_event_written used rest (true, d) = rest (add32 used 8) (count_sent d)

  -- The loop over the events for one descriptor: an event leaves the list before it is written. What
  -- is left of the descriptor is `d.len-used`, where `used` counts those before it too.
  unfoldable pub fill_desc :
      List InputEvent → ℕ → ℕ → ℕ → Device M Input → Bool × ℕ × Device M Input
  fill_desc [] addr len used d = (true, used, d)
  fill_desc (e ∷ es) addr len used d =
      let rest = fill_desc es addr len in
      if leb 8 (sub32 len used)
      then on_event_written used rest
          (copy_out ops (add64 addr used) (event_bytes e) (with_events es d))
      else (true, used, d)

  unfoldable pub on_desc :
      (ℕ → Device M Input → ℕ × Device M Input) → Bool × ℕ × Device M Input → ℕ × Device M Input
  on_desc rest (false, used, d) = (used, d)
  on_desc rest (true, used, d) = if length d.own.events == 0 then (used, d) else rest used d

  unfoldable pub event_descs : List VirtqDesc → ℕ → Device M Input → ℕ × Device M Input
  event_descs [] used d = (used, d)
  event_descs (x ∷ xs) used d =
      let rest = event_descs xs in
      if not (is_writable x) || ltb x.len 8
      then rest used d
      else on_desc rest (fill_desc d.own.events x.addr x.len used d)

  unfoldable pub on_event_chain : Answer (List VirtqDesc) × Device M Input → ℕ × Device M Input
  on_event_chain (err e, d) = (0, fail (Failure.bad_chain e) d)
  on_event_chain (ok descs, d) = event_descs descs 0 d

  unfoldable pub fill_event : ℕ → Device M Input → ℕ × Device M Input
  fill_event head d =
      let q = queue_of queue_event d in on_event_chain (run (read_chain ops q.num q.desc head) d)

  unfoldable pub on_status_data :
      ℕ
      → ℕ
      → (ℕ → Device M Input → ℕ × Device M Input)
      → Answer (List ℕ) × Device M Input
      → ℕ × Device M Input
  on_status_data n used rest (err e, d) = (used, fail Failure.no_data d)
  on_status_data n used rest (ok buf, d) = rest (add32 used n) (take_status buf d)

  unfoldable pub status_descs : List VirtqDesc → ℕ → Device M Input → ℕ × Device M Input
  status_descs [] used d = (used, d)
  status_descs (x ∷ xs) used d =
      let rest = status_descs xs in
      if is_writable x || ltb x.len 8
      then rest used d
      else on_status_data x.len used rest (run (copy_from_guest ops x.len x.addr) d)

  unfoldable pub on_status_chain : Answer (List VirtqDesc) × Device M Input → ℕ × Device M Input
  on_status_chain (err e, d) = (0, fail (Failure.bad_chain e) d)
  on_status_chain (ok descs, d) = status_descs descs 0 d

  unfoldable pub consume_status : ℕ → Device M Input → ℕ × Device M Input
  consume_status head d =
      let q = queue_of queue_status d in on_status_chain (run (read_chain ops q.num q.desc head) d)

  unfoldable pub on_events_filled : ℕ → ℕ × Device M Input → Round (Device M Input)
  on_events_filled head (used, d) =
      let (published, d') = publish_used ops queue_event head used d in
      if used == 0 then Round.stopped d' else Round.again d'

  unfoldable pub on_event_head : Next (Device M Input) → Round (Device M Input)
  on_event_head (Next.none_left d) = Round.stopped d
  on_event_head (Next.found head d) = on_events_filled head (fill_event head d)

  unfoldable pub event_round : Device M Input → Round (Device M Input)
  event_round d =
      if length d.own.events == 0
      then Round.stopped d
      else on_event_head (next_head ops queue_event d)

  unfoldable pub process_event_queue : ℕ → Device M Input → Run (Device M Input)
  process_event_queue fuel d =
      if length d.own.events == 0 || not (queue_ready queue_event d)
      then Run.finished d
      else rounds event_round fuel d

  unfoldable pub process_status_queue : ℕ → Device M Input → Run (Device M Input)
  process_status_queue fuel d =
      process_tx ops queue_status (λ head d. some (consume_status head d)) fuel d

  unfoldable pub inject_events : ℕ → List InputEvent → Device M Input → Run (Device M Input)
  inject_events fuel es d = process_event_queue fuel (with_events (d.own.events ++ es) d)

  unfoldable pub inject_key : ℕ → ℕ → Bool → Device M Input → Run (Device M Input)
  inject_key fuel code down d =
      let val = if down then 1 else 0 in
      inject_events fuel
        (record { typ = ev_key; code = code; value = val }
          ∷ record { typ = ev_syn; code = 0; value = 0 }
          ∷ [])
        d

  -- The status queue after the event queue.
  unfoldable pub then_status : ℕ → Run (Device M Input) → Run (Device M Input)
  then_status fuel (Run.finished d) = process_status_queue fuel d
  then_status fuel Run.crashed = Run.crashed
  then_status fuel (Run.unfinished d) = Run.unfinished d

  unfoldable pub input_follow : ℕ → Device M Input × Signal → Run (Device M Input)
  input_follow fuel (d, Signal.notified q) =
      if q == queue_event
      then process_event_queue fuel d
      else if q == queue_status
      then process_status_queue fuel d
      else Run.finished d
  input_follow fuel (d, Signal.readiness i ready) =
      if ready && i == queue_event then process_event_queue fuel d else Run.finished d
  input_follow fuel (d, Signal.status_set) = then_status fuel (process_event_queue fuel d)
  input_follow fuel (d, Signal.was_reset) = Run.finished (input_reset d)
  input_follow fuel (d, Signal.quiet) = Run.finished d

  unfoldable pub input_write : ℕ → ℕ → ℕ → ℕ → Device M Input → Run (Device M Input)
  input_write fuel addr size val d =
      let (d', signal) = write_registers input_kind addr size val d in
      input_follow fuel (write_config (sub64 addr virtio_input_base) size val d', signal)
