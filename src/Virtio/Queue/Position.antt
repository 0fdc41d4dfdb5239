-- ===== src/Virtio/Queue/Position.antt =====
-- Where a device stands in the ring of available chains: what moves `lastAvail` and what does not.
use rvwasm.Base.{ℕ, ◌+◌, ◌^◌, Bool, true, false, List, ◌≡◌, ap, ◌∙◌, if-keeps, u16, has}
use rvwasm.Base.Arrays.{update-same}
use rvwasm.Virtio.Guest.{Memory, Answer, ok, err, Guest, read16}
use rvwasm.Virtio.Guest.Keeps.{AreKeptByReads, AreKeptByWrites, read16-Keeps, copy_to_guest-Keeps}
use rvwasm.Virtio.Transport.{VirtQueue, Failure, set_failed, set_queue}
use rvwasm.Virtio.Queue.{
  Device, run, fail, update_irq, advance, raise_if, on_event, on_flags, put, should_interrupt,
  on_used, copy_out, publish_used,
}

abbrev pub at_avail : VirtQueue → ℕ → VirtQueue
at_avail q l = record q { last_avail = l }

-- The memory satisfies `J`, and queue `i` is `q` but for `lastAvail`, which is `l`.
unfoldable pub IsAt : {M O : Type 0} → (M → Type 0) → ℕ → VirtQueue → ℕ → Device M O → Type 0
IsAt J i q l d = J d.mem × (d.regs.queues i ≡ at_avail q l)

module _ {M O : Type 0} (J : M → Type 0) (i : ℕ) (q : VirtQueue) (l : ℕ) where
  pub run-IsAt :
      {A : Type 0} (g : Guest M A) (d : Device M O)
      → ((m : M) → J m → J (g m).1)
      → IsAt J i q l d
      → IsAt J i q l (run g d).1
  unfolding IsAt run
  run-IsAt g d k (j, e) = (k d.mem j, e)

  pub fail-IsAt : (f : Failure) (d : Device M O) → IsAt J i q l d → IsAt J i q l (fail f d)
  unfolding IsAt fail set_failed
  fail-IsAt f d h = h

  pub raise_if-IsAt : (p : Bool × Device M O) → IsAt J i q l p.1 → IsAt J i q l (raise_if p)
  unfolding IsAt raise_if update_irq
  raise_if-IsAt (false, d) h = h
  raise_if-IsAt (true, d) h = h

  pub advance-IsAt : (d : Device M O) → IsAt J i q l d → IsAt J i q (u16 (l + 1)) (advance i d)
  unfolding IsAt advance set_queue
  advance-IsAt d (j, e) = (
    j,
    update-same d.regs.queues i _ ∙ ap (λ (r : VirtQueue). at_avail r (u16 (r.last_avail + 1))) e,
  )

  pub on_event-IsAt :
      (old new : ℕ) (p : Answer ℕ × Device M O)
      → IsAt J i q l p.1
      → IsAt J i q l (on_event old new p).1
  unfolding on_event
  on_event-IsAt old new (ok e, d) h = h
  on_event-IsAt old new (err e, d) h = fail-IsAt Failure.no_used_event d h

  pub on_flags-IsAt : (p : Answer ℕ × Device M O) → IsAt J i q l p.1 → IsAt J i q l (on_flags p).1
  unfolding on_flags
  on_flags-IsAt (ok f, d) h = h
  on_flags-IsAt (err e, d) h = fail-IsAt Failure.no_avail_flags d h

module _ {M O : Type 0} (ops : Memory M) (J : M → Type 0) (reads : AreKeptByReads ops J) (i : ℕ)
    (q : VirtQueue) where
  pub read16-IsAt :
      (l addr : ℕ) (d : Device M O) → IsAt J i q l d → IsAt J i q l (run (read16 ops addr) d).1
  read16-IsAt l addr d h = run-IsAt J i q l (read16 ops addr) d (read16-Keeps ops J reads addr) h

  pub should_interrupt-IsAt :
      (l old new : ℕ) (d : Device M O)
      → IsAt J i q l d
      → IsAt J i q l (should_interrupt ops i old new d).1
  unfolding should_interrupt
  should_interrupt-IsAt l old new d h =
      if-keeps (λ (p : Bool × Device M O). IsAt J i q l p.1)
        (has (d.regs.driver_features 0) (2 ^ 29))
        (on_event-IsAt J i q l old new _ (read16-IsAt l _ d h))
        (on_flags-IsAt J i q l _ (read16-IsAt l _ d h))

  module _ (writes : AreKeptByWrites ops J) where
    pub put-IsAt :
        (l size addr val : ℕ) (d : Device M O)
        → IsAt J i q l d
        → IsAt J i q l (put ops size addr val d)
    unfolding put IsAt AreKeptByWrites
    put-IsAt l size addr val d (j, e) = (writes d.mem addr size val j, e)

    pub copy_out-IsAt :
        (l addr : ℕ) (bytes : List ℕ) (d : Device M O)
        → IsAt J i q l d
        → IsAt J i q l (copy_out ops addr bytes d).1
    unfolding copy_out IsAt
    copy_out-IsAt l addr bytes d (j, e) =
        (copy_to_guest-Keeps ops J reads writes bytes addr d.mem j, e)

    -- A chain that is published moves the device on by one; one that is not leaves it.
    unfoldable pub IsPublished : ℕ → Bool × Device M O → Type 0
    IsPublished l (true, d) = IsAt J i q (u16 (l + 1)) d
    IsPublished l (false, d) = IsAt J i q l d

    on_used-IsPublished :
        (l head used : ℕ) (p : Answer ℕ × Device M O)
        → IsAt J i q l p.1
        → IsPublished l (on_used ops i head used p)
    unfolding on_used IsPublished
    on_used-IsPublished l head used (err e, d) h = fail-IsAt J i q l Failure.no_used_idx d h
    on_used-IsPublished l head used (ok idx, d) h = raise_if-IsAt J i q (u16 (l + 1)) _ (
        should_interrupt-IsAt (u16 (l + 1)) idx _ _
          (advance-IsAt J i q l _ (put-IsAt l _ _ _ _ (put-IsAt l _ _ _ _ (put-IsAt l _ _ _ d h)))))

    pub publish_used-IsPublished :
        (l head used : ℕ) (d : Device M O)
        → IsAt J i q l d
        → IsPublished l (publish_used ops i head used d)
    unfolding publish_used
    publish_used-IsPublished l head used d h =
        on_used-IsPublished l head used _ (read16-IsAt l _ d h)
