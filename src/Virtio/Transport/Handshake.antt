-- ===== src/Virtio/Transport/Handshake.antt =====
-- The status register of a device (`Write` of offset 0x70 in internal/dev/virtio_*.go).
use rvwasm.Base.{
  true, false, ◌&&◌, ◌≡◌, arith, has, and_not, ◌^◌, ◌-◌, ℕ, some, ◌⊎◌, inl, inr, Bool-cases,
}
use rvwasm.Base.Bits.Flags.{has-and_not_same, has-and_not_other, has-bit_or_same, has-bit_or_other}
use rvwasm.Dev.Registers.{partial_write32}
use rvwasm.Virtio.Transport.{
  Kind, Transport, Failure, set_status, set_failed, features_accepted, set_queue, cleared,
  virtio_status_driver_ok, virtio_status_features, virtio_status_failed,
}
use rvwasm.Virtio.Registers.{register_of, register_write}

-- A driver that is ready has its features accepted by a bit, or the device failed.
unfoldable pub IsNegotiated : Transport → Type 0
IsNegotiated t =
    has t.status virtio_status_driver_ok ≡ true
    → (has t.status virtio_status_features ≡ true) ⊎ (has t.status virtio_status_failed ≡ true)

-- After a write of the status register that does not reset, FEATURES_OK is set exactly if it was
-- written and the features are accepted, DRIVER_OK is what was written, and with DRIVER_OK but not
-- FEATURES_OK the device is marked as failed with the message for this.
pub set_status-handshake :
    (k : Kind) (t : Transport) (new : ℕ)
    → let t' = set_status k t new in
      (has t'.status virtio_status_features
        ≡ (has new virtio_status_features && features_accepted k t))
      × (has t'.status virtio_status_driver_ok ≡ has new virtio_status_driver_ok)
      × (has t'.status virtio_status_driver_ok ≡ true
          → has t'.status virtio_status_features ≡ false
          → (has t'.status virtio_status_failed ≡ true)
            × (t'.last_err ≡ some Failure.driver_ok_early))
unfolding set_status set_failed
set_status-handshake k t new = ground (
  arith,
  has-and_not_same 3 new,
  has-and_not_other 2 3 new,
  has-bit_or_same 7 new,
  has-bit_or_same 7 (and_not new (2 ^ 3)),
  has-bit_or_other 3 7 new,
  has-bit_or_other 2 7 new,
  has-bit_or_other 3 7 (and_not new (2 ^ 3)),
  has-bit_or_other 2 7 (and_not new (2 ^ 3)),
)

set_status-IsNegotiated : (k : Kind) (t : Transport) (new : ℕ) → IsNegotiated (set_status k t new)
unfolding IsNegotiated
set_status-IsNegotiated k t new ready =
    let (features, same, rest) = set_status-handshake k t new in
    elim (Bool-cases (has (set_status k t new).status virtio_status_features)) [
      | inl e ↦ inl e
      | inr e ↦ inr (rest ready e).0
    ]

same_status : (t t' : Transport) → t'.status ≡ t.status → IsNegotiated t → IsNegotiated t'
unfolding IsNegotiated
same_status t t' e h = rw e h

cleared-IsNegotiated : (t : Transport) → IsNegotiated (cleared t)
unfolding IsNegotiated cleared
cleared-IsNegotiated t h = absurd (ground (arith, h))

-- Where the status of a device comes from after a write to a register.
register_write-status :
    (k : Kind) (t : Transport) (off size val : ℕ)
    → let new = partial_write32 t.status (off - register_of k off) size val in
      let t' = (register_write k t off size val).0 in
      (t'.status ≡ t.status)
      ⊎ (t'.status ≡ (cleared t).status)
      ⊎ (t'.status ≡ (set_status k t new).status)
unfolding register_write set_queue
register_write-status k t off size val = ground arith

-- If a device of any kind with DRIVER_OK has FEATURES_OK or is marked as failed, this is so after
-- a write of any size to any of its registers.
pub register_write-IsNegotiated :
    (k : Kind) (t : Transport) (off size val : ℕ)
    → IsNegotiated t
    → IsNegotiated (register_write k t off size val).0
register_write-IsNegotiated k t off size val h = elim (register_write-status k t off size val) [
  | inl e ↦ same_status t _ e h
  | inr (inl e) ↦ same_status (cleared t) _ e (cleared-IsNegotiated t)
  | inr (inr e) ↦ same_status (set_status k t _) _ e (set_status-IsNegotiated k t _)
]
