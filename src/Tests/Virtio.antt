-- ===== src/Tests/Virtio.antt =====
-- The theorems on the virtio devices of internal/dev.
use rvwasm.Base.{
  ℕ, ◌+◌, ◌-◌, ◌*◌, ◌^◌, ◌≤◌, max, true, false, ◌&&◌, List, [], ◌∷◌, none, some, ◌≡◌, ◌↔◌, ◌⊎◌,
  refl, arith, ◌==◌, if◌then◌else◌, has, u16, u64, add32,
}
use rvwasm.Mem.Bytes.{get_le, put_le}
use rvwasm.Virtio.Guest.{
  Memory, ChainError, answer_of, and_then, read16, copy_from_guest, copy_to_guest, after_byte,
}
use rvwasm.Virtio.Guest.Holds.{Holds}
use rvwasm.Virtio.Guest.Keeps.{AreKeptByReads}
use rvwasm.Virtio.Chain.{VirtqDesc, read_chain}
use rvwasm.Virtio.Chain.Shape.{IsShort, read_chain-IsShort}
use rvwasm.Virtio.Transport.{
  Transport, VirtQueue, Failure, set_status, features_accepted, virtio_status_driver_ok,
  virtio_status_features, virtio_status_failed,
}
use rvwasm.Virtio.Registers.{register_write}
use rvwasm.Virtio.Transport.Handshake.{
  IsNegotiated, set_status-handshake, register_write-IsNegotiated,
}
use rvwasm.Virtio.Queue.{Device, virtq_need_event, run, queue_ready, copy_out}
use rvwasm.Virtio.Queue.Event.{IsPassed, virtq_need_event-IsPassed}
use rvwasm.Virtio.Queue.Ends.{Unended}
use rvwasm.Virtio.Queue.Position.{IsAt}
use rvwasm.Virtio.Queue.Steady.{IsSteady, IsReadable, IsUnreadable}
use rvwasm.Virtio.Block.{
  block_kind, process_request, transfer, send_disk, overwrite, on_sent, virtio_blk_sector_size,
}
use rvwasm.Virtio.Block.Disk.{AreSized, Leaves, LeavesAfter, total, transfer-panic}
use rvwasm.Virtio.Block.Request.{process_request-disk_length}
use rvwasm.Virtio.Block.Stored.{transfer-stored}
use rvwasm.Virtio.Rng.{rng_kind}
use rvwasm.Virtio.Console.{Console, fill_rx, console_process_tx}
use rvwasm.Virtio.Console.Rx.{Takes, fill_rx-Takes}
use rvwasm.Virtio.Console.Stuck.{console_process_tx-Unended}
use rvwasm.Virtio.Input.{
  Input, InputEvent, event_descs, on_desc, fill_desc, on_event_written, event_bytes, with_events,
  count_sent,
}
use rvwasm.Virtio.Input.Config.{input_read, read_config, config_byte, config_data, byte_at}
use rvwasm.Virtio.Net.{Net, net_fill_rx}
use rvwasm.Virtio.Net.Rx.{IsDelivery, net_fill_rx-IsDelivery}

-- Bytes that are read and written as the guest's memory is.
abbrev pub ram : Memory (ℕ → ℕ)
ram = record {
  read = λ m addr size. (some (get_le m addr size), m);
  write = λ m addr size val. (true, put_le m addr size val);
}

-- A queue of eight entries: descriptors at 0x100, available ring at 0x200, used ring at 0x300.
abbrev queue : VirtQueue
queue = record {
  num = 8;
  ready = true;
  desc = 0x100;
  driver = 0x200;
  device = 0x300;
  last_avail = 0;
}

-- A device that the driver made ready, with both its queues alike.
abbrev regs : Transport
regs = record {
  device_features_sel = 0;
  driver_features_sel = 0;
  driver_features = λ i. if i == 1 then 1 else 0;
  queue_sel = 0;
  queues = λ _. queue;
  interrupt_status = 0;
  status = 15;
  config_generation = 0;
  last_err = none;
}

-- One chain is available. It has a header, a byte of data and a status, or is a buffer of the console.
abbrev bytes : ℕ → ℕ
bytes a =
    if a == 0x202
    then 1
    else if a == 0x101
    then 4
    else if a == 0x108
    then 16
    else if a == 0x10c
    then 1
    else if a == 0x10e
    then 1
    else if a == 0x111
    then 5
    else if a == 0x118
    then 1
    else if a == 0x11c
    then 3
    else if a == 0x11e
    then 2
    else if a == 0x121
    then 6
    else if a == 0x128
    then 1
    else if a == 0x12c
    then 2
    else 0

abbrev pub on_ram : {O : Type 0} → O → Device (ℕ → ℕ) O
on_ram own = record { mem = bytes; regs = regs; own = own; told = [] }

set_status-handshake_example :
    let t = set_status block_kind regs 4 in
    (has t.status virtio_status_features
      ≡ (has 4 virtio_status_features && features_accepted block_kind regs))
    × (has t.status virtio_status_driver_ok ≡ has 4 virtio_status_driver_ok)
    × (has t.status virtio_status_driver_ok ≡ true
        → has t.status virtio_status_features ≡ false
        → (has t.status virtio_status_failed ≡ true) × (t.last_err ≡ some Failure.driver_ok_early))
set_status-handshake_example = set_status-handshake block_kind regs 4

regs-IsNegotiated : IsNegotiated regs
unfolding IsNegotiated
regs-IsNegotiated h = inl_features
  where
    inl_features : (has 15 virtio_status_features ≡ true) ⊎ (has 15 virtio_status_failed ≡ true)
    inl_features = ground arith

register_write-IsNegotiated_example : IsNegotiated (register_write rng_kind regs 0x70 4 4).0
register_write-IsNegotiated_example =
    register_write-IsNegotiated rng_kind regs 0x70 4 4 regs-IsNegotiated

read_chain-IsShort_example : Holds (IsShort (max 1024 (u16 8))) (read_chain ram 8 0x100 0 bytes)
read_chain-IsShort_example = read_chain-IsShort ram 8 0x100 0 bytes

-- Index 0xffff was asked for, and those from 0xfffe to 1 were used.
virtq_need_event-IsPassed_example :
    (virtq_need_event 0xffff 2 0xfffe ≡ true) ↔ IsPassed 0xffff 2 0xfffe
virtq_need_event-IsPassed_example =
    virtq_need_event-IsPassed 0xffff 2 0xfffe (omega arith) (omega arith) (omega arith)

process_request-disk_length_example : Leaves 2 Unit (process_request ram 0 (on_ram (7 ∷ 8 ∷ [])))
process_request-disk_length_example = process_request-disk_length ram 0 (on_ram (7 ∷ 8 ∷ []))

abbrev data_out : VirtqDesc
data_out = record { addr = 0x500; len = 2; flags = 1; next = 2 }

abbrev data_in : VirtqDesc
data_in = record { addr = 0x600; len = 2; flags = 3; next = 2 }

data_in-AreSized : AreSized (data_in ∷ [])
unfolding AreSized
data_in-AreSized = (omega arith, tt)

transfer-panic_example :
    LeavesAfter 3
      (2 ^ 64 ≤ u64 (0 * virtio_blk_sector_size) + total (data_in ∷ []))
      (transfer ram 0 0 (data_in ∷ []) (on_ram (1 ∷ 2 ∷ 3 ∷ [])))
transfer-panic_example =
    transfer-panic ram 0 0 (data_in ∷ []) (on_ram (1 ∷ 2 ∷ 3 ∷ [])) data_in-AreSized

-- A sector whose offset and length wrap to 0 passes the check against the disk, and the slice panics.
abbrev whole_sector : VirtqDesc
whole_sector = record { addr = 0x600; len = 512; flags = 3; next = 2 }

sector_wraps : transfer ram 0 (2 ^ 55 - 1) (whole_sector ∷ []) (on_ram (1 ∷ 2 ∷ 3 ∷ [])) ≡ none
unfolding transfer send_disk
sector_wraps = refl

transfer-stored_example :
    let d : Device (ℕ → ℕ) (List ℕ) = on_ram (1 ∷ 2 ∷ 3 ∷ []) in
    let stored : List ℕ = overwrite (0 * virtio_blk_sector_size) (0 ∷ 0 ∷ []) (1 ∷ 2 ∷ 3 ∷ []) in
    (transfer ram 1 0 (data_out ∷ []) d ≡ some (true, 1, record d { own = stored }))
    × (stored ≡ stored
        → transfer ram 0 0 (data_in ∷ []) (record d { own = stored })
          ≡ on_sent ram 1
              (λ d3. some (true, add32 1 2, d3))
              (copy_out ram 0x600 (0 ∷ 0 ∷ []) (record d { own = stored })))
unfolding run copy_from_guest answer_of and_then get_le
transfer-stored_example =
    let d : Device (ℕ → ℕ) (List ℕ) = on_ram (1 ∷ 2 ∷ 3 ∷ []) in
    transfer-stored ram 0 data_out data_in (0 ∷ 0 ∷ []) d d
      (record d { own = overwrite (0 * virtio_blk_sector_size) (0 ∷ 0 ∷ []) (1 ∷ 2 ∷ 3 ∷ []) }) refl
      refl refl refl (omega arith) (omega arith)

-- Memory in which the used ring is not there.
abbrev no_used : Memory ℕ
no_used = record {
  read = λ m addr size. (if addr == 0x302 then none else some (get_le bytes addr size), m);
  write = λ m addr size val. (true, m);
}

abbrev console : Console
console = record { rx = 1 ∷ 2 ∷ []; out = []; last_tx_bytes = 0; last_rx_bytes = 0 }

abbrev on_no_used : Device ℕ Console
on_no_used = record { mem = 0; regs = regs; own = console; told = [] }

no_used-reads : AreKeptByReads no_used (λ _. Unit)
unfolding AreKeptByReads
no_used-reads m addr size h = tt

no_used-IsSteady : IsSteady no_used (λ _. Unit) queue 1
unfolding IsSteady read16 answer_of and_then get_le
no_used-IsSteady m h = refl

no_used-IsReadable : IsReadable no_used (λ _. Unit) 0x204
unfolding IsReadable read16 answer_of and_then get_le
no_used-IsReadable m h = (0, refl)

no_used-IsUnreadable : IsUnreadable no_used (λ _. Unit) 0x302
unfolding IsUnreadable read16 answer_of and_then
no_used-IsUnreadable m h = (ChainError.bus_error, refl)

no_used-IsAt : IsAt (λ _. Unit) 1 queue 0 on_no_used
unfolding IsAt
no_used-IsAt = (tt, refl)

no_used-queue_ready : queue_ready 1 on_no_used ≡ true
unfolding queue_ready
no_used-queue_ready = refl

console_process_tx-Unended_example : Unended (console_process_tx no_used 100000 on_no_used)
console_process_tx-Unended_example =
    console_process_tx-Unended no_used (λ _. Unit) queue 1 0 on_no_used no_used-reads
      no_used-IsSteady no_used-IsReadable no_used-IsUnreadable no_used-IsAt (omega arith)
      no_used-queue_ready 100000

fill_rx-Takes_example :
    Takes ram (run (read_chain ram 8 0x100 0) (on_ram console)) (fill_rx ram 0 (on_ram console))
fill_rx-Takes_example = fill_rx-Takes ram 0 (on_ram console)

abbrev net : Net
net = record {
  mac = λ i. i;
  rx_frames = (5 ∷ []) ∷ [];
  tx_frames = [];
  rx_packets = 0;
  tx_packets = 0;
  dropped_rx = 0;
}

net_fill_rx-IsDelivery_example :
    IsDelivery ram
      (5 ∷ [])
      []
      (run (read_chain ram 8 0x100 0) (on_ram net))
      (net_fill_rx ram (5 ∷ []) [] 0 (on_ram net))
net_fill_rx-IsDelivery_example = net_fill_rx-IsDelivery ram (5 ∷ []) [] 0 (on_ram net)

abbrev key : ℕ → InputEvent
key code = record { typ = 1; code = code; value = 1 }

abbrev input : Input
input = record {
  events = key 30 ∷ key 31 ∷ key 32 ∷ [];
  status_events = [];
  cfg_select = 3;
  cfg_subsel = 0;
  events_sent = 0;
  statuses_received = 0;
}

abbrev room_for : ℕ → ℕ → VirtqDesc
room_for addr len = record { addr = addr; len = len; flags = 2; next = 0 }

-- The third event goes behind the second descriptor, which has room for one event at 0x700.
input_overrun :
    (event_descs ram (room_for 0x600 16 ∷ room_for 0x700 8 ∷ []) 0 (on_ram input)).1.mem 0x710 ≡ 1
unfolding event_descs on_desc fill_desc on_event_written copy_out copy_to_guest after_byte
    event_bytes with_events count_sent put_le
input_overrun = refl

-- The two bytes of the vendor.
input_vendor : input_read (on_ram input) 0x1000_510a 2 ≡ 0x5257
unfolding input_read read_config config_byte config_data byte_at get_le
input_vendor = refl
