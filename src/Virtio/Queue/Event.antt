-- ===== src/Virtio/Queue/Event.antt =====
-- When the driver asked to be told of a used index (`virtqNeedEvent` in internal/dev/virtio_blk.go).
use rvwasm.Base.{ℕ, ◌+◌, ◌-◌, ◌%◌, ◌^◌, ◌<◌, true, ◌≡◌, ◌↔◌, arith, ltb→lt, lt→ltb}
use rvwasm.Virtio.Queue.{virtq_need_event}

-- The indices that were used since the last look are `old`, ..., `new - 1`, around the end of 16 bits.
unfoldable pub IsPassed : ℕ → ℕ → ℕ → Type 0
IsPassed event new old =
    (k : ℕ) × (k < (new + 2 ^ 16 - old) % 2 ^ 16) × (event ≡ (old + k) % 2 ^ 16)

-- For 16-bit indices, the driver is told exactly if the event index is among those that were used,
-- from the old index up to and without the new one, counted around the end of 16 bits.
pub virtq_need_event-IsPassed :
    (event new old : ℕ)
    → event < 2 ^ 16
    → new < 2 ^ 16
    → old < 2 ^ 16
    → (virtq_need_event event new old ≡ true) ↔ IsPassed event new old
unfolding virtq_need_event IsPassed
virtq_need_event-IsPassed event new old e n o = (
  λ h. let b = ltb→lt _ _ h in ((event + 2 ^ 16 - old) % 2 ^ 16, omega arith, omega arith),
  λ h. let (k, b, p) = h in lt→ltb _ _ (omega arith),
)
