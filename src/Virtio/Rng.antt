-- ===== src/Virtio/Rng.antt =====
-- internal/dev/virtio_rng.go: the entropy device on top of the shared registers and queue.
use rvwasm.Base.{
  ℕ, zero, suc, ◌+◌, ◌*◌, ◌%◌, ◌^◌, Bool, true, false, not, ◌||◌, List, [], ◌∷◌, some, ltb, ◌==◌,
  if◌then◌else◌, add64, add32, sub64, u64, u8, bit_xor, shl64, ◌>>>◌,
}
use rvwasm.Virtio.Guest.{Memory, Answer, ok, err}
use rvwasm.Virtio.Chain.{VirtqDesc, is_writable, read_chain}
use rvwasm.Virtio.Transport.{Kind, Signal, Failure, ring_features}
use rvwasm.Virtio.Registers.{register_read}
use rvwasm.Virtio.Queue.{Device, Run, run, fail, queue_of, process_queue, write_registers}

abbrev pub virtio_rng_base : ℕ
virtio_rng_base = 0x1000_4000

abbrev pub rng_kind : Kind
rng_kind = record {
  base = virtio_rng_base;
  device_id = 4;
  queue_count = 1;
  features0 = ring_features;
  exact = false;
  single = true;
  shows_unselected = false;
}

pub record Rng : Type 0 where
  pub seed : ℕ
  pub bytes_served : ℕ
  pub requests : ℕ

abbrev pub default_seed : ℕ
default_seed = 0x7276_7761_736d_726e

-- The three steps of the generator on the seed.
unfoldable pub stir : ℕ → ℕ
stir s = let x = bit_xor s (s >>> 12) in let y = bit_xor x (shl64 x 25) in bit_xor y (y >>> 27)

-- The byte that a seed gives once it is stirred.
unfoldable pub entropy : ℕ → ℕ
entropy x = u8 (u64 (x * 0x2545_f491_4f6c_dd1d) >>> 56)

module _ {M : Type 0} where
  unfoldable pub set_seed : ℕ → Device M Rng → Device M Rng
  set_seed seed d =
      let t = d.regs in
      let s = if seed == 0 then default_seed else seed in
      record d {
        own = record d.own { seed = s };
        regs = record t { config_generation = (t.config_generation + 1) % 2 ^ 32 };
      }

  unfoldable pub next_byte : Device M Rng → ℕ × Device M Rng
  next_byte d = let x = stir d.own.seed in (entropy x, record d { own = record d.own { seed = x } })

  unfoldable pub served_bytes : ℕ → Device M Rng → Device M Rng
  served_bytes n d = record d { own = record d.own { bytes_served = add64 d.own.bytes_served n } }

  unfoldable pub rng_read : Device M Rng → ℕ → ℕ → ℕ
  rng_read d addr size =
      let off = sub64 addr virtio_rng_base in
      if ltb off 0x100 then register_read rng_kind d.regs off size else 0

module _ {M : Type 0} (ops : Memory M) where
  unfoldable pub fill_bytes : ℕ → ℕ → Device M Rng → Bool × Device M Rng
  fill_bytes zero addr d = (true, d)
  fill_bytes (suc n) addr d =
      let (b, d1) = next_byte d in
      let (written, m) = ops.write d1.mem addr 1 b in
      let d2 = record d1 { mem = m } in
      let rest = fill_bytes n (add64 addr 1) d2 in
      elim written [ true ↦ rest | false ↦ (false, fail Failure.no_data d2) ]

  unfoldable pub on_filled :
      ℕ
      → ℕ
      → (ℕ → Device M Rng → Bool × ℕ × Device M Rng)
      → Bool × Device M Rng
      → Bool × ℕ × Device M Rng
  on_filled n used rest (false, d) = (false, used, d)
  on_filled n used rest (true, d) = rest (add32 used n) (served_bytes n d)

  -- The loop over the descriptors: whether it reached the end, and the bytes used.
  unfoldable pub fill_descs : List VirtqDesc → ℕ → Device M Rng → Bool × ℕ × Device M Rng
  fill_descs [] used d = (true, used, d)
  fill_descs (x ∷ xs) used d =
      let rest = fill_descs xs in
      if not (is_writable x) || x.len == 0
      then rest used d
      else on_filled x.len used rest (fill_bytes x.len x.addr d)

  unfoldable pub on_all_filled : Bool × ℕ × Device M Rng → ℕ × Device M Rng
  on_all_filled (false, used, d) = (used, d)
  on_all_filled (true, used, d) =
      (used, record d { own = record d.own { requests = add64 d.own.requests 1 } })

  unfoldable pub on_fill_chain : Answer (List VirtqDesc) × Device M Rng → ℕ × Device M Rng
  on_fill_chain (err e, d) = (0, fail (Failure.bad_chain e) d)
  on_fill_chain (ok descs, d) = on_all_filled (fill_descs descs 0 d)

  unfoldable pub fill_request : ℕ → Device M Rng → ℕ × Device M Rng
  fill_request head d =
      let q = queue_of 0 d in on_fill_chain (run (read_chain ops q.num q.desc head) d)

  unfoldable pub rng_process : ℕ → Device M Rng → Run (Device M Rng)
  rng_process fuel d = process_queue ops 0 (λ head d. some (fill_request head d)) fuel d

  unfoldable pub rng_follow : ℕ → Device M Rng × Signal → Run (Device M Rng)
  rng_follow fuel (d, Signal.notified q) = if q == 0 then rng_process fuel d else Run.finished d
  rng_follow fuel (d, Signal.readiness i ready) =
      if ready then rng_process fuel d else Run.finished d
  rng_follow fuel (d, Signal.status_set) = rng_process fuel d
  rng_follow fuel (d, Signal.quiet) = Run.finished d
  rng_follow fuel (d, Signal.was_reset) = Run.finished d

  unfoldable pub rng_write : ℕ → ℕ → ℕ → ℕ → Device M Rng → Run (Device M Rng)
  rng_write fuel addr size val d = rng_follow fuel (write_registers rng_kind addr size val d)
