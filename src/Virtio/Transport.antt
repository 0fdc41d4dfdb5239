-- ===== src/Virtio/Transport.antt =====
-- The state that the virtio devices share, its reset and the status handshake: internal/dev/virtio_blk.go,
-- virtio_rng.go, virtio_net.go and virtio_console.go repeat them. A `Kind` says where they differ.
pub mod Handshake
use rvwasm.Base.{
  ℕ, ◌+◌, ◌-◌, ◌*◌, ◌%◌, ◌^◌, Bool, true, false, not, ◌&&◌, ◌||◌, List, [], ◌∷◌, Option, none, some,
  ltb, leb, ◌==◌, if◌then◌else◌, bit_or, bit_and, and_not, has, sub64, u32, ◌>>>◌,
}
use rvwasm.Base.Arrays.{update}
use rvwasm.Dev.Registers.{partial_read32, partial_write32}
use rvwasm.Virtio.Guest.{ChainError}

abbrev pub virtio_status_driver_ok : ℕ
virtio_status_driver_ok = 2 ^ 2

abbrev pub virtio_status_features : ℕ
virtio_status_features = 2 ^ 3

abbrev pub virtio_status_failed : ℕ
virtio_status_failed = 2 ^ 7

abbrev pub virtio_irq_used_buffer : ℕ
virtio_irq_used_buffer = 1

abbrev pub virtio_queue_size : ℕ
virtio_queue_size = 128

-- The feature bits 28, 29 and 32.
abbrev pub ring_features : ℕ
ring_features = 2 ^ 28 + 2 ^ 29

abbrev pub f_version1 : ℕ
f_version1 = 2 ^ 0

pub record VirtQueue : Type 0 where
  pub num : ℕ
  pub ready : Bool
  pub desc : ℕ
  pub driver : ℕ
  pub device : ℕ
  pub last_avail : ℕ

-- `virtQueue{}`
abbrev pub no_queue : VirtQueue
no_queue = record { num = 0; ready = false; desc = 0; driver = 0; device = 0; last_avail = 0 }

-- Which message `fail` keeps in `lastErr`.
pub data Failure : Type 0 where
  driver_ok_early no_avail_ring no_used_idx no_used_event no_avail_flags no_data : Failure
  bad_chain : ChainError → Failure

-- The fields of a device that do not depend on its kind, but for the bus and the callback.
pub record Transport : Type 0 where
  pub device_features_sel : ℕ
  pub driver_features_sel : ℕ
  pub driver_features : ℕ → ℕ
  pub queue_sel : ℕ
  pub queues : ℕ → VirtQueue
  pub interrupt_status : ℕ
  pub status : ℕ
  pub config_generation : ℕ
  pub last_err : Option Failure

-- The constants of a device and its deviations: `exact` when it compares whole offsets (`switch off`)
-- rather than words (`switch off &^ 3`), `single` when its address registers ignore `queueSel`,
-- `shows_unselected` when so do its reads of the size and the readiness.
pub record Kind : Type 0 where
  pub base : ℕ
  pub device_id : ℕ
  pub queue_count : ℕ
  pub features0 : ℕ
  pub exact : Bool
  pub single : Bool
  pub shows_unselected : Bool

-- What `Write` goes on to do with the queues.
pub data Signal : Type 0 where
  quiet was_reset status_set : Signal
  readiness : ℕ → Bool → Signal
  notified : ℕ → Signal

-- The fields of a device whose queues and status are clear.
unfoldable pub cleared : Transport → Transport
cleared t = record {
  device_features_sel = 0;
  driver_features_sel = 0;
  driver_features = λ _. 0;
  queue_sel = 0;
  queues = λ _. no_queue;
  interrupt_status = 0;
  status = 0;
  config_generation = t.config_generation;
  last_err = none;
}

-- The argument of the callback in `updateIRQ`.
unfoldable pub irq_level : Transport → Bool
irq_level t = not (t.interrupt_status == 0)

unfoldable pub set_failed : Failure → Transport → Transport
set_failed f t = record t { last_err = some f; status = bit_or t.status virtio_status_failed }

unfoldable pub set_queue : ℕ → VirtQueue → Transport → Transport
set_queue i q t = record t { queues = update t.queues i q }

module _ (k : Kind) where
  unfoldable pub device_features : ℕ → ℕ
  device_features sel = if sel == 0 then k.features0 else if sel == 1 then f_version1 else 0

  unfoldable pub features_accepted : Transport → Bool
  features_accepted t =
      and_not (t.driver_features 0) (device_features 0) == 0
      && and_not (t.driver_features 1) (device_features 1) == 0
      && has (t.driver_features 1) f_version1

  unfoldable pub set_status : Transport → ℕ → Transport
  set_status t new =
      let kept =
        if has new virtio_status_features && not (features_accepted t)
        then and_not new virtio_status_features
        else new in
      if has kept virtio_status_driver_ok && not (has kept virtio_status_features)
      then (let failed = set_failed Failure.driver_ok_early t in
          record failed { status = bit_or kept virtio_status_failed })
      else record t { status = kept }
