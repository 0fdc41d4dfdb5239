-- ===== src/Virtio/Queue/Steady.antt =====
-- The loops over a queue (`processQueue` and `processTx` in internal/dev/virtio_*.go) while the index of
-- the available ring stays.
use rvwasm.Base.{
  ℕ, ◌+◌, ◌*◌, ◌%◌, ◌-◌, ◌^◌, ◌<◌, Bool, true, false, not, ◌&&◌, ◌≡◌, ◌≢◌, refl, sym, ap, arith,
  subst, Option, none, some, ◌==◌, if◌then◌else◌, if-keeps, Bool-cases, inl, inr, add64, u16,
}
use rvwasm.Virtio.Guest.{Memory, Answer, ok, err, ChainError, read16}
use rvwasm.Virtio.Guest.Keeps.{AreKeptByReads, AreKeptByWrites}
use rvwasm.Virtio.Transport.{VirtQueue, Failure}
use rvwasm.Virtio.Queue.{
  Device, Next, Round, run, on_used, publish_used, on_head, on_avail, next_head, on_served, on_next,
  queue_of, queue_round, tx_round, rounds, queue_ready, process_queue,
}
use rvwasm.Virtio.Queue.Ends.{
  Continues, Continues-map, Continues-and, IsKept, Ended, Unended, rounds-Ended, rounds-Unended,
}
use rvwasm.Virtio.Queue.Position.{
  IsAt, fail-IsAt, read16-IsAt, IsPublished, publish_used-IsPublished,
}

-- The index of the available ring of `q` reads as `idx`.
unfoldable pub IsSteady : {M : Type 0} → Memory M → (M → Type 0) → VirtQueue → ℕ → Type 0
IsSteady {M} ops J q idx = (m : M) → J m → (read16 ops (add64 q.driver 2) m).0 ≡ ok idx

-- Whenever `K` holds of the device, the index of its available ring reads as `idx`.
unfoldable pub ReadsAvail : {M O : Type 0} → Memory M → ℕ → ℕ → (Device M O → Type 0) → Type 0
ReadsAvail {M} {O} ops i idx K =
    (s : Device M O) → K s → (read16 ops (add64 (queue_of i s).driver 2) s.mem).0 ≡ ok idx

-- The service of a chain keeps the device where it is.
unfoldable pub IsServed :
    {M O : Type 0} → (M → Type 0) → ℕ → VirtQueue → ℕ → Option (ℕ × Device M O) → Type 0
IsServed J i q l none = Unit
IsServed J i q l (some (used, d)) = IsAt J i q l d

module _ {M O : Type 0} (ops : Memory M) (J : M → Type 0) (reads : AreKeptByReads ops J) (i : ℕ)
    (q : VirtQueue) (idx : ℕ) (l : ℕ) (Z : Type 0) where
  -- Where the index of the ring is steady the device reads it.
  steady_read :
      IsSteady ops J q idx
      → (d : Device M O) → IsAt J i q l d
      → (read16 ops (add64 (queue_of i d).driver 2) d.mem).0 ≡ ok idx
  unfolding IsSteady IsAt
  steady_read steady d (j, eq) =
      subst (λ (r : VirtQueue). (read16 ops (add64 r.driver 2) d.mem).0 ≡ ok idx) (sym eq)
        (steady d.mem j)

  Finds : Next (Device M O) → Type 0
  Finds (Next.none_left d) = Z
  Finds (Next.found head d) = IsAt J i q l d × (l ≢ idx)

  on_head-Finds :
      (p : Answer ℕ × Device M O)
      → ((e : ChainError) → p.0 ≡ err e → Z)
      → IsAt J i q l p.1
      → l ≢ idx
      → Finds (on_head p)
  unfolding on_head Finds
  on_head-Finds (ok head, d) z h ne = (h, ne)
  on_head-Finds (err e, d) z h ne = z e refl

  on_avail-Finds :
      (p : Answer ℕ × Device M O)
      → p.0 ≡ ok idx
      → IsAt J i q l p.1
      → ((m : M)
          → J m
          → (e : ChainError)
          → (read16 ops (add64 (add64 q.driver 4) (l % u16 q.num * 2)) m).0 ≡ err e
          → Z)
      → (l ≡ idx → Z)
      → Finds (on_avail ops i p)
  unfolding on_avail Finds IsAt run
  on_avail-Finds (err b, d) e h ring z = absurd (ground (arith, e))
  on_avail-Finds (ok n, d) e (j, eq) ring z =
      let same : n ≡ idx = ground (arith, e) in
      let last : (d.regs.queues i).last_avail ≡ l = ap (λ (r : VirtQueue). r.last_avail) eq in
      let place = λ (r : VirtQueue). add64 (add64 r.driver 4) (r.last_avail % u16 r.num * 2) in
      let read =
        subst (λ (r : VirtQueue). (e' : ChainError) → (read16 ops (place r) d.mem).0 ≡ err e' → Z)
          (sym eq) (ring d.mem j) in
      elim (Bool-cases ((d.regs.queues i).last_avail == n)) [
        | inl t ↦ rw t (z (ground (arith, t, last, same)))
        | inr t ↦ rw t (
            on_head-Finds _ read (read16-IsAt ops J reads i q l _ d (j, eq))
              (ground (arith, t, last, same)))
      ]

  next_head-Finds :
      ((m : M)
        → J m
        → (e : ChainError) → (read16 ops (add64 (add64 q.driver 4) (l % u16 q.num * 2)) m).0 ≡ err e
        → Z)
      → (l ≡ idx → Z)
      → (d : Device M O) → IsAt J i q l d
      → (read16 ops (add64 (queue_of i d).driver 2) d.mem).0 ≡ ok idx
      → Finds (next_head ops i d)
  unfolding next_head IsAt run
  next_head-Finds ring z d (j, eq) read =
      on_avail-Finds _ read (read16-IsAt ops J reads i q l _ d (j, eq)) ring z

module _ {M O : Type 0} (ops : Memory M) (J : M → Type 0) (reads : AreKeptByReads ops J)
    (writes : AreKeptByWrites ops J) (i : ℕ) (q : VirtQueue)
    (serve : ℕ → Device M O → Option (ℕ × Device M O))
    (serves : (l head : ℕ) (d : Device M O) → IsAt J i q l d → IsServed J i q l (serve head d))
    (idx : ℕ) where
  -- The state before a round and after it.
  Moved : ℕ → Device M O → Type 0
  Moved l d = IsAt J i q (u16 (l + 1)) d × (l ≢ idx)

  on_served-Continues :
      (l head : ℕ) (r : Option (ℕ × Device M O))
      → l ≢ idx
      → IsServed J i q l r
      → Continues Unit (Moved l) (on_served ops i serve true head r)
  unfolding on_served Continues IsServed IsPublished Moved
  on_served-Continues l head none ne h = tt
  on_served-Continues l head (some (used, d)) ne h =
      ended (publish_used ops i head used d)
        (publish_used-IsPublished ops J reads i q writes l head used d h)
    where
      ended :
          (p : Bool × Device M O)
          → IsPublished ops J reads i q writes l p
          → Continues Unit
              (Moved l)
              (if true && not p.0 then Round.stopped p.1 else Round.again p.1)
      ended (true, d') g = (g, ne)
      ended (false, d') g = tt

  on_next-Continues :
      (l : ℕ) (r : Next (Device M O))
      → Finds ops J reads i q idx l Unit r
      → Continues Unit (Moved l) (on_next ops i serve true r)
  unfolding on_next Continues Finds
  on_next-Continues l (Next.none_left d) h = tt
  on_next-Continues l (Next.found head d) (h, ne) =
      on_served-Continues l head (serve head d) ne (serves l head d h)

  -- How far the index is ahead.
  ahead : Device M O → ℕ
  ahead d = (idx + 2 ^ 16 - (d.regs.queues i).last_avail) % 2 ^ 16

  Standing : Device M O → Type 0
  Standing d = (l : ℕ) × (l < 2 ^ 16) × IsAt J i q l d

  nearer :
      (l : ℕ) (d d' : Device M O)
      → idx < 2 ^ 16
      → l < 2 ^ 16
      → IsAt J i q l d
      → Moved l d'
      → Standing d' × (ahead d' < ahead d)
  unfolding Moved Standing ahead IsAt
  nearer l d d' small b (j, e) ((j', e'), ne) =
      let last : (d.regs.queues i).last_avail ≡ l = ap (λ (r : VirtQueue). r.last_avail) e in
      let last' : (d'.regs.queues i).last_avail ≡ u16 (l + 1) =
        ap (λ (r : VirtQueue). r.last_avail) e' in
      ((u16 (l + 1), omega arith, (j', e')), omega arith)

  -- `K` holds of the device at the start of each round.
  module _ (K : Device M O → Type 0) where
    queue_round-Ended :
        IsKept K (queue_round ops i serve)
        → ReadsAvail ops i idx K
        → idx < 2 ^ 16
        → (d : Device M O) → Standing d
        → K d
        → Ended (rounds (queue_round ops i serve) (2 ^ 16) d)
    unfolding queue_round Standing ahead IsKept ReadsAvail
    queue_round-Ended kept index small d h k =
        rounds-Ended (queue_round ops i serve) (λ s. Standing s × K s) ahead round (2 ^ 16) d (h, k)
          (omega arith)
      where
        round :
            (s : Device M O)
            → Standing s × K s
            → Continues Unit
                (λ s'. (Standing s' × K s') × (ahead s' < ahead s))
                (queue_round ops i serve s)
        round s ((n, c, at), ks) =
            Continues-map Unit (queue_round ops i serve s)
              (λ s' (moved, ks').
                let (h', less) = nearer n s s' small c at moved in ((h', ks'), less))
              (Continues-and Unit (Moved n) K (queue_round ops i serve s) (λ s' e. kept s s' ks e)
                (on_next-Continues n (next_head ops i s) (
                  next_head-Finds ops J reads i q idx n Unit (λ m j e r. tt) (λ e. tt) s at
                    (index s ks))))

    pub process_queue-Ended :
        IsKept K (queue_round ops i serve)
        → ReadsAvail ops i idx K
        → idx < 2 ^ 16
        → (l : ℕ) (d : Device M O) → l < 2 ^ 16
        → IsAt J i q l d
        → K d
        → Ended (process_queue ops i serve (2 ^ 16) d)
    unfolding process_queue Ended Standing
    process_queue-Ended kept index small l d b h k =
        if-keeps Ended (queue_ready i d) (queue_round-Ended kept index small d (l, b, h) k) tt

-- No read at an address succeeds.
unfoldable pub IsUnreadable : {M : Type 0} → Memory M → (M → Type 0) → ℕ → Type 0
IsUnreadable {M} ops J addr = (m : M) → J m → (e : ChainError) × ((read16 ops addr m).0 ≡ err e)

-- Every read at an address succeeds.
unfoldable pub IsReadable : {M : Type 0} → Memory M → (M → Type 0) → ℕ → Type 0
IsReadable {M} ops J addr = (m : M) → J m → (v : ℕ) × ((read16 ops addr m).0 ≡ ok v)

-- The service of a chain has a result, which keeps the device where it is.
unfoldable pub IsTotal :
    {M O : Type 0} → (M → Type 0) → ℕ → VirtQueue → ℕ → Option (ℕ × Device M O) → Type 0
IsTotal J i q l none = ⊥
IsTotal J i q l (some (used, d)) = IsAt J i q l d

module _ {M O : Type 0} (ops : Memory M) (J : M → Type 0) (reads : AreKeptByReads ops J) (i : ℕ)
    (q : VirtQueue) (serve : ℕ → Device M O → Option (ℕ × Device M O)) (l : ℕ)
    (serves : (head : ℕ) (d : Device M O) → IsAt J i q l d → IsTotal J i q l (serve head d))
    (idx : ℕ) (ne : l ≢ idx) where
  stuck_used :
      (head used : ℕ) (p : Answer ℕ × Device M O) (e : ChainError)
      → p.0 ≡ err e
      → IsAt J i q l p.1
      → IsAt J i q l (on_used ops i head used p).1
  unfolding on_used
  stuck_used head used (ok n, d) e eq h = absurd (ground (arith, eq))
  stuck_used head used (err b, d) e eq h = fail-IsAt J i q l Failure.no_used_idx d h

  stuck_publish :
      IsUnreadable ops J (add64 q.device 2)
      → (head used : ℕ) (d : Device M O) → IsAt J i q l d
      → IsAt J i q l (publish_used ops i head used d).1
  unfolding publish_used IsUnreadable IsAt run
  stuck_publish bad head used d (j, eq) =
      let read =
        subst
          (λ (r : VirtQueue). (e : ChainError) × ((read16 ops (add64 r.device 2) d.mem).0 ≡ err e))
          (sym eq) (bad d.mem j) in
      stuck_used head used _ read.0 read.1 (read16-IsAt ops J reads i q l _ d (j, eq))

  stuck_served :
      IsUnreadable ops J (add64 q.device 2)
      → (head : ℕ) (r : Option (ℕ × Device M O)) → IsTotal J i q l r
      → Continues ⊥ (IsAt J i q l) (on_served ops i serve false head r)
  unfolding on_served Continues IsTotal
  stuck_served bad head none h = h
  stuck_served bad head (some (used, d)) h = stuck_publish bad head used d h

  stuck_next :
      IsUnreadable ops J (add64 q.device 2)
      → (r : Next (Device M O)) → Finds ops J reads i q idx l ⊥ r
      → Continues ⊥ (IsAt J i q l) (on_next ops i serve false r)
  unfolding on_next Continues Finds
  stuck_next bad (Next.none_left d) h = h
  stuck_next bad (Next.found head d) (h, n) = stuck_served bad head (serve head d) (serves head d h)

  pub tx_round-Unended :
      IsSteady ops J q idx
      → IsReadable ops J (add64 (add64 q.driver 4) (l % u16 q.num * 2))
      → IsUnreadable ops J (add64 q.device 2)
      → (fuel : ℕ) (d : Device M O) → IsAt J i q l d
      → Unended (rounds (tx_round ops i serve) fuel d)
  unfolding tx_round IsReadable
  tx_round-Unended steady ring bad fuel d h =
      rounds-Unended (tx_round ops i serve) (IsAt J i q l)
        (λ s at. stuck_next bad (next_head ops i s) (
          next_head-Finds ops J reads i q idx l ⊥
            (λ m j e r. let (v, r') = ring m j in absurd (ground (arith, r, r')))
            (λ e. absurd (ne e)) s at (steady_read ops J reads i q idx l ⊥ steady s at)))
        fuel d h
