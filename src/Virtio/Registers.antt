-- ===== src/Virtio/Registers.antt =====
-- The reads and writes of the registers of a virtio device (`Read` and `Write` of
-- internal/dev/virtio_*.go up to the configuration and the work on the queues).
use rvwasm.Base.{
  ℕ, ◌-◌, ◌*◌, ◌%◌, ◌^◌, Bool, true, false, not, ◌&&◌, ◌||◌, List, [], ◌∷◌, ltb, ◌==◌,
  if◌then◌else◌, bit_or, bit_and, and_not, u32, ◌>>>◌,
}
use rvwasm.Dev.Registers.{partial_read32, partial_write32}
use rvwasm.Base.Arrays.{update}
use rvwasm.Virtio.Transport.{
  Kind, Transport, VirtQueue, Signal, no_queue, cleared, irq_level, set_queue, device_features,
  set_status, virtio_queue_size,
}

abbrev pub virtio_mmio_magic : ℕ
virtio_mmio_magic = 0x7472_6976

abbrev pub virtio_vendor_rvwasm : ℕ
virtio_vendor_rvwasm = 0x5256_574d

abbrev pub flag32 : Bool → ℕ
flag32 true = 1
flag32 false = 0

-- A write that calls nothing.
abbrev quietly : Transport → Transport × List Bool × Signal
quietly t = (t, [], Signal.quiet)

-- `q.desc = (q.desc &^ 0xffffffff) | x` and `q.desc = (q.desc & 0xffffffff) | x << 32`
unfoldable pub with_low : ℕ → ℕ → ℕ
with_low a x = bit_or (and_not a 0xffff_ffff) x

unfoldable pub with_high : ℕ → ℕ → ℕ
with_high a x = bit_or (bit_and a 0xffff_ffff) (x * 2 ^ 32)

unfoldable pub set_ready : Bool → VirtQueue → VirtQueue
set_ready ready q = record q { ready = ready; last_avail = if ready then q.last_avail else 0 }

-- What the registers of the addresses of a queue become; `w` is `write32`.
unfoldable pub set_address : (ℕ → ℕ) → ℕ → VirtQueue → VirtQueue
set_address w reg q =
    if reg == 0x080
    then record q { desc = with_low q.desc (w (u32 q.desc)) }
    else if reg == 0x084
    then record q { desc = with_high q.desc (w (u32 (q.desc >>> 32))) }
    else if reg == 0x090
    then record q { driver = with_low q.driver (w (u32 q.driver)) }
    else if reg == 0x094
    then record q { driver = with_high q.driver (w (u32 (q.driver >>> 32))) }
    else if reg == 0x0a0
    then record q { device = with_low q.device (w (u32 q.device)) }
    else if reg == 0x0a4
    then record q { device = with_high q.device (w (u32 (q.device >>> 32))) }
    else q

module _ (k : Kind) where
  -- The offset that the `switch` sees, and where in that register the access starts.
  unfoldable pub register_of : ℕ → ℕ
  register_of off = if k.exact then off else off - off % 4

  unfoldable pub selected : Transport → Bool
  selected t = ltb t.queue_sel k.queue_count

  -- The queue of the address registers, and whether there is one.
  unfoldable pub addressed : Transport → ℕ
  addressed t = if k.single then 0 else t.queue_sel

  unfoldable pub has_addressed : Transport → Bool
  has_addressed t = k.single || selected t

  -- The queue whose size and readiness are read.
  unfoldable pub shown : Transport → ℕ
  shown t = if k.shows_unselected then 0 else t.queue_sel

  unfoldable pub has_shown : Transport → Bool
  has_shown t = k.shows_unselected || selected t

  -- The value of a register, before the part that is asked for is taken.
  unfoldable pub register_value : Transport → ℕ → ℕ
  register_value t reg =
      let q = t.queues (addressed t) in
      let of_queue = λ (v : ℕ). if has_addressed t then v else 0 in
      if reg == 0x000
      then virtio_mmio_magic
      else if reg == 0x004
      then 2
      else if reg == 0x008
      then k.device_id
      else if reg == 0x00c
      then virtio_vendor_rvwasm
      else if reg == 0x010
      then device_features k t.device_features_sel
      else if reg == 0x014
      then t.device_features_sel
      else if reg == 0x020
      then (if ltb t.driver_features_sel 2 then t.driver_features t.driver_features_sel else 0)
      else if reg == 0x024
      then t.driver_features_sel
      else if reg == 0x030
      then t.queue_sel
      else if reg == 0x034
      then (if selected t then virtio_queue_size else 0)
      else if reg == 0x038
      then (if has_shown t then (t.queues (shown t)).num else 0)
      else if reg == 0x044
      then (if has_shown t then flag32 (t.queues (shown t)).ready else 0)
      else if reg == 0x060
      then t.interrupt_status
      else if reg == 0x070
      then t.status
      else if reg == 0x080
      then of_queue (u32 q.desc)
      else if reg == 0x084
      then of_queue (u32 (q.desc >>> 32))
      else if reg == 0x090
      then of_queue (u32 q.driver)
      else if reg == 0x094
      then of_queue (u32 (q.driver >>> 32))
      else if reg == 0x0a0
      then of_queue (u32 q.device)
      else if reg == 0x0a4
      then of_queue (u32 (q.device >>> 32))
      else if reg == 0x0fc
      then t.config_generation
      else 0

  -- `Read` of an offset below 0x100.
  unfoldable pub register_read : Transport → ℕ → ℕ → ℕ
  register_read t off size =
      partial_read32 (register_value t (register_of off)) (off - register_of off) size

  -- `Write` of an offset, with the calls of `IRQ`.
  unfoldable pub register_write : Transport → ℕ → ℕ → ℕ → Transport × List Bool × Signal
  register_write t off size val =
      let reg = register_of off in
      let w = λ (cur : ℕ). partial_write32 cur (off - reg) size val in
      let i = t.queue_sel in
      let q = t.queues i in
      if reg == 0x014
      then quietly (record t { device_features_sel = w t.device_features_sel })
      else if reg == 0x020
      then quietly (
          if ltb t.driver_features_sel 2
          then record t {
            driver_features =
                update t.driver_features t.driver_features_sel
                  (w (t.driver_features t.driver_features_sel));
          }
          else t)
      else if reg == 0x024
      then quietly (record t { driver_features_sel = w t.driver_features_sel })
      else if reg == 0x030
      then quietly (record t { queue_sel = w t.queue_sel })
      else if reg == 0x038
      then quietly (if selected t then set_queue i (record q { num = w q.num }) t else t)
      else if reg == 0x044
      then (let ready = not (w (flag32 q.ready) == 0) in
          if selected t
          then (set_queue i (set_ready ready q) t, [], Signal.readiness i ready)
          else quietly t)
      else if reg == 0x050
      then (t, [], Signal.notified (w 0))
      else if reg == 0x064
      then (let t' = record t { interrupt_status = and_not t.interrupt_status (w 0) } in
          (t', irq_level t' ∷ [], Signal.quiet))
      else if reg == 0x070
      then (let new = w t.status in
          if new == 0
          then (cleared t, irq_level (cleared t) ∷ [], Signal.was_reset)
          else (set_status k t new, [], Signal.status_set))
      else if reg == 0x0c0
      then (let t' = record (set_queue i no_queue t) { interrupt_status = 0 } in
          if not (w 0 == 0) && selected t then (t', irq_level t' ∷ [], Signal.quiet) else quietly t)
      else quietly (
          if has_addressed t
          then set_queue (addressed t) (set_address w reg (t.queues (addressed t))) t
          else t)
