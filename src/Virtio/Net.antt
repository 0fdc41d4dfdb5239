-- ===== src/Virtio/Net.antt =====
-- internal/dev/virtio_net.go: the network device on top of the shared registers and queues.
pub mod Rx
use rvwasm.Base.{
  ℕ, ◌+◌, ◌*◌, ◌%◌, ◌-◌, ◌^◌, min, Bool, true, false, not, ◌||◌, List, [], ◌∷◌, ◌++◌, some, ltb,
  leb, ◌==◌, if◌then◌else◌, add64, add32, sub64, u32,
}
use rvwasm.Base.Arrays.{length, take, drop, zeros}
use rvwasm.Dev.Registers.{partial_read32}
use rvwasm.Virtio.Guest.{Memory, Answer, ok, err, copy_from_guest}
use rvwasm.Virtio.Chain.{VirtqDesc, is_writable, read_chain}
use rvwasm.Virtio.Transport.{Kind, Signal, Failure, ring_features}
use rvwasm.Virtio.Registers.{register_read}
use rvwasm.Virtio.Queue.{
  Device, Run, Round, Next, run, rounds, fail, queue_of, queue_ready, next_head, publish_used,
  process_tx, copy_out, write_registers,
}

abbrev pub virtio_net_base : ℕ
virtio_net_base = 0x1000_3000

-- Bits 5 and 16 are `virtioNetFMacBit` and `virtioNetFStatusBit`.
abbrev pub net_kind : Kind
net_kind = record {
  base = virtio_net_base;
  device_id = 1;
  queue_count = 2;
  features0 = 2 ^ 5 + 2 ^ 16 + ring_features;
  exact = false;
  single = false;
  shows_unselected = false;
}

abbrev pub virtio_net_hdr_len : ℕ
virtio_net_hdr_len = 10

-- `mac` has six bytes.
pub record Net : Type 0 where
  pub mac : ℕ → ℕ
  pub rx_frames : List (List ℕ)
  pub tx_frames : List (List ℕ)
  pub rx_packets : ℕ
  pub tx_packets : ℕ
  pub dropped_rx : ℕ

abbrev pub net_queue_rx : ℕ
net_queue_rx = 0

abbrev pub net_queue_tx : ℕ
net_queue_tx = 1

-- The frame is what follows the header, if it is there at all.
unfoldable pub frame_of : List ℕ → List ℕ
frame_of raw = if leb virtio_net_hdr_len (length raw) then drop virtio_net_hdr_len raw else raw

module _ {M : Type 0} where
  -- The configuration: the address, and the link up.
  unfoldable pub net_read : Device M Net → ℕ → ℕ → ℕ
  net_read d addr size =
      let off = sub64 addr virtio_net_base in
      if ltb off 0x100
      then register_read net_kind d.regs off size
      else if ltb off 0x106
      then d.own.mac (off - 0x100)
      else if ltb off 0x108
      then partial_read32 1 (off - 0x106) size
      else 0

  unfoldable pub drain_tx_frames : Device M Net → List (List ℕ) × Device M Net
  drain_tx_frames d = (d.own.tx_frames, record d { own = record d.own { tx_frames = [] } })

  unfoldable pub sent : List ℕ → Device M Net → Device M Net
  sent [] d = d
  sent (b ∷ bs) d = record d {
    own = record d.own {
      tx_frames = d.own.tx_frames ++ (b ∷ bs) ∷ [];
      tx_packets = add64 d.own.tx_packets 1;
    };
  }

  unfoldable pub received : List (List ℕ) → Device M Net → Device M Net
  received frames d = record d {
    own = record d.own { rx_frames = frames; rx_packets = add64 d.own.rx_packets 1 };
  }

  unfoldable pub drop_rx : Device M Net → Device M Net
  drop_rx d = record d { own = record d.own { dropped_rx = add64 d.own.dropped_rx 1 } }

module _ {M : Type 0} (ops : Memory M) where
  unfoldable pub on_gathered :
      ℕ
      → ℕ
      → List ℕ
      → (ℕ → List ℕ → Device M Net → ℕ × Device M Net)
      → Answer (List ℕ) × Device M Net
      → ℕ × Device M Net
  on_gathered n used raw rest (err e, d) = (used, fail Failure.no_data d)
  on_gathered n used raw rest (ok buf, d) = rest (add32 used n) (raw ++ buf) d

  unfoldable pub gather : List VirtqDesc → ℕ → List ℕ → Device M Net → ℕ × Device M Net
  gather [] used raw d = (used, sent (frame_of raw) d)
  gather (x ∷ xs) used raw d =
      let rest = gather xs in
      if is_writable x || x.len == 0
      then rest used raw d
      else on_gathered x.len used raw rest (run (copy_from_guest ops x.len x.addr) d)

  unfoldable pub on_net_tx_chain : Answer (List VirtqDesc) × Device M Net → ℕ × Device M Net
  on_net_tx_chain (err e, d) = (0, fail (Failure.bad_chain e) d)
  on_net_tx_chain (ok descs, d) = gather descs 0 [] d

  unfoldable pub net_consume_tx : ℕ → Device M Net → ℕ × Device M Net
  net_consume_tx head d =
      let q = queue_of net_queue_tx d in on_net_tx_chain (run (read_chain ops q.num q.desc head) d)

  -- What is left of the payload once the descriptors are filled, or a failure to write.
  unfoldable pub on_scattered :
      ℕ
      → List ℕ
      → (List ℕ → Device M Net → Bool × List ℕ × Device M Net)
      → Bool × Device M Net
      → Bool × List ℕ × Device M Net
  on_scattered n left rest (false, d) = (false, left, fail Failure.no_data d)
  on_scattered n left rest (true, d) = rest (drop n left) d

  unfoldable pub scatter : List VirtqDesc → List ℕ → Device M Net → Bool × List ℕ × Device M Net
  scatter [] left d = (true, left, d)
  scatter (x ∷ xs) left d =
      let rest = scatter xs in
      let n = min x.len (length left) in
      if not (is_writable x) || x.len == 0
      then rest left d
      else if length left == 0
      then (true, left, d)
      else on_scattered n left rest (copy_out ops x.addr (take n left) d)

  -- The frame goes once it is written whole.
  unfoldable pub on_all_scattered :
      ℕ → List (List ℕ) → Bool × List ℕ × Device M Net → ℕ × Device M Net
  on_all_scattered size frames (false, left, d) = (0, d)
  on_all_scattered size frames (true, [], d) = (u32 size, received frames d)
  on_all_scattered size frames (true, b ∷ left, d) = (0, d)

  unfoldable pub on_net_rx_chain :
      List ℕ → List (List ℕ) → Answer (List VirtqDesc) × Device M Net → ℕ × Device M Net
  on_net_rx_chain frame frames (err e, d) = (0, fail (Failure.bad_chain e) d)
  on_net_rx_chain frame frames (ok descs, d) =
      let payload = zeros virtio_net_hdr_len ++ frame in
      on_all_scattered (length payload) frames (scatter descs payload d)

  -- `fillRx` with the first frame and those after it.
  unfoldable pub net_fill_rx : List ℕ → List (List ℕ) → ℕ → Device M Net → ℕ × Device M Net
  net_fill_rx frame frames head d =
      let q = queue_of net_queue_rx d in
      on_net_rx_chain frame frames (run (read_chain ops q.num q.desc head) d)

  unfoldable pub on_net_filled : ℕ → ℕ × Device M Net → Round (Device M Net)
  on_net_filled head (used, d) =
      let (published, d') = publish_used ops net_queue_rx head used d in
      if used == 0 then Round.stopped (drop_rx d) else Round.again d'

  unfoldable pub on_net_rx_head :
      List ℕ → List (List ℕ) → Next (Device M Net) → Round (Device M Net)
  on_net_rx_head frame frames (Next.none_left d) = Round.stopped d
  on_net_rx_head frame frames (Next.found head d) =
      on_net_filled head (net_fill_rx frame frames head d)

  -- The loop of `processRx` with the frames that wait.
  unfoldable pub rx_frames_round : List (List ℕ) → Device M Net → Round (Device M Net)
  rx_frames_round [] d = Round.stopped d
  rx_frames_round (frame ∷ frames) d = on_net_rx_head frame frames (next_head ops net_queue_rx d)

  unfoldable pub net_rx_round : Device M Net → Round (Device M Net)
  net_rx_round d = rx_frames_round d.own.rx_frames d

  unfoldable pub net_process_rx : ℕ → Device M Net → Run (Device M Net)
  net_process_rx fuel d =
      if length d.own.rx_frames == 0 || not (queue_ready net_queue_rx d)
      then Run.finished d
      else rounds net_rx_round fuel d

  unfoldable pub net_process_tx : ℕ → Device M Net → Run (Device M Net)
  net_process_tx fuel d =
      process_tx ops net_queue_tx (λ head d. some (net_consume_tx head d)) fuel d

  unfoldable pub inject_frame : ℕ → List ℕ → Device M Net → Run (Device M Net)
  inject_frame fuel frame d =
      if length frame == 0
      then Run.finished d
      else net_process_rx fuel
          (record d { own = record d.own { rx_frames = d.own.rx_frames ++ frame ∷ [] } })

  unfoldable pub net_follow : ℕ → Device M Net × Signal → Run (Device M Net)
  net_follow fuel (d, Signal.notified q) =
      if q == net_queue_rx
      then net_process_rx fuel d
      else if q == net_queue_tx
      then net_process_tx fuel d
      else Run.finished d
  net_follow fuel (d, Signal.readiness i ready) =
      if i == net_queue_rx then net_process_rx fuel d else Run.finished d
  net_follow fuel (d, Signal.status_set) = net_process_rx fuel d
  net_follow fuel (d, Signal.was_reset) =
      Run.finished (record d { own = record d.own { rx_frames = [] } })
  net_follow fuel (d, Signal.quiet) = Run.finished d

  unfoldable pub net_write : ℕ → ℕ → ℕ → ℕ → Device M Net → Run (Device M Net)
  net_write fuel addr size val d = net_follow fuel (write_registers net_kind addr size val d)
