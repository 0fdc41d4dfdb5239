-- ===== src/Mem/Bus.antt =====
-- internal/mem/bus.go: the memory, the regions of the devices, watchpoints and the access logs. The
-- devices are a parameter: a state and the three methods of the interface `Device`.
pub mod Memory
pub mod Regions
pub mod Setup
use rvwasm.Base.{
  ℕ, zero, suc, ◌+◌, ◌-◌, ◌*◌, ◌^◌, Bool, true, false, not, ◌&&◌, ◌||◌, Option, none, some, List,
  [], ◌∷◌, ◌++◌, ltb, leb, ◌==◌, if◌then◌else◌, add64, sub64,
}
use rvwasm.Base.Arrays.{update, length}
use rvwasm.Ring.{Ring, empty_ring, push}
use rvwasm.Cpu.Hart.{Access, Platform, Hart}
use rvwasm.Mem.Bytes.{get_le, put_le}

-- `Device`, with all devices in one state `D`: the number says which device is called.
pub record Devices (D : Type 0) : Type 0 where
  pub read : D → ℕ → ℕ → ℕ → Access D
  pub write : D → ℕ → ℕ → ℕ → ℕ → Access D
  pub tick : D → ℕ → ℕ → Access D

-- A name is a number here, since the source uses it as a key and in text only.
abbrev pub dram_name : ℕ
dram_name = 0

pub record Region : Type 0 where
  pub base : ℕ
  pub size : ℕ
  pub dev : ℕ
  pub name : ℕ

pub record Watchpoint : Type 0 where
  pub base : ℕ
  pub size : ℕ
  pub name : ℕ

-- `AccessBucket`, without the fields that it shares with its region.
pub record AccessBucket : Type 0 where
  pub read_ops : ℕ
  pub read_bytes : ℕ
  pub write_ops : ℕ
  pub write_bytes : ℕ

-- `AccessEvent`; its text `Reg` is a function of the others and of the region.
pub record AccessEvent : Type 0 where
  pub seq : ℕ
  pub name : ℕ
  pub addr : ℕ
  pub size : ℕ
  pub is_write : Bool
  pub value : ℕ

pub record WatchpointHit : Type 0 where
  pub seq : ℕ
  pub is_write : Bool
  pub name : ℕ
  pub addr : ℕ
  pub last : ℕ

abbrev pub access_timeline_ring_size : ℕ
access_timeline_ring_size = 1024

abbrev pub watchpoint_hit_ring_size : ℕ
watchpoint_hit_ring_size = 256

-- `last_watchpoint` is the hit that the text `lastWatchpoint` tells of.
pub record Bus (D : Type 0) : Type 0 where
  pub dram_base : ℕ
  pub dram : ℕ → ℕ
  pub dram_len : ℕ
  pub trace_dram_access : Bool
  pub regions : List Region
  pub tick_devices : List ℕ
  pub devices : D
  pub write_watchpoints : List Watchpoint
  pub read_watchpoints : List Watchpoint
  pub last_watchpoint : Option WatchpointHit
  pub access : ℕ → AccessBucket
  pub access_timeline : Ring AccessEvent
  pub access_seq : ℕ
  pub watchpoint_hits : Ring WatchpointHit

-- `addr < wend && end > w.Base`, with ends that wrap.
abbrev pub overlaps : ℕ → ℕ → Watchpoint → Bool
overlaps addr size w = ltb addr (add64 w.base w.size) && ltb w.base (add64 addr size)

unfoldable pub first_watchpoint : ℕ → ℕ → List Watchpoint → Option Watchpoint
first_watchpoint addr size [] = none
first_watchpoint addr size (w ∷ ws) =
    if overlaps addr size w then some w else first_watchpoint addr size ws

-- `findRegion`: the first region, in the order of their addition, that passes the test.
unfoldable pub find_region : ℕ → ℕ → List Region → Option Region
find_region addr size [] = none
find_region addr size (r ∷ rs) =
    if leb r.base addr && leb (add64 addr size) (add64 r.base r.size)
    then some r
    else find_region addr size rs

-- The sizes that a `switch size` knows.
abbrev pub is_size : ℕ → Bool
is_size size = size == 1 || size == 2 || size == 4 || size == 8

unfoldable pub add_access : AccessBucket → Bool → ℕ → AccessBucket
add_access a true n = record a {
  write_ops = add64 a.write_ops 1;
  write_bytes = add64 a.write_bytes n;
}
add_access a false n = record a { read_ops = add64 a.read_ops 1; read_bytes = add64 a.read_bytes n }

-- `copy(mem[off:], data)`
unfoldable pub put_bytes : List ℕ → ℕ → (ℕ → ℕ) → ℕ → ℕ
put_bytes [] off mem = mem
put_bytes (v ∷ vs) off mem = put_bytes vs (off + 1) (update mem off v)

module _ {D : Type 0} where
  unfoldable pub record_watchpoint_hit : Bus D → Bool → ℕ → ℕ → ℕ → Bus D
  record_watchpoint_hit b is_write name addr last =
      let hit : WatchpointHit = record {
        seq = add64 b.access_seq 1;
        is_write = is_write;
        name = name;
        addr = addr;
        last = last;
      } in
      record b {
        last_watchpoint = some hit;
        watchpoint_hits = push watchpoint_hit_ring_size hit b.watchpoint_hits;
      }

  -- `checkWatchpoint`: the first watchpoint that the access touches is noted.
  unfoldable pub note_watchpoint : Bus D → Bool → ℕ → ℕ → Option Watchpoint → Bus D
  note_watchpoint b is_write addr size none = b
  note_watchpoint b is_write addr size (some w) =
      record_watchpoint_hit b is_write w.name addr (sub64 (add64 addr size) 1)

  abbrev pub check_watchpoint : Bus D → ℕ → ℕ → List Watchpoint → Bool → Bus D
  check_watchpoint b addr size points is_write =
      if size == 0
      then b
      else note_watchpoint b is_write addr size (first_watchpoint addr size points)

  unfoldable pub check_read_watchpoint : Bus D → ℕ → ℕ → Bus D
  check_read_watchpoint b addr size = check_watchpoint b addr size b.read_watchpoints false

  unfoldable pub check_write_watchpoint : Bus D → ℕ → ℕ → Bus D
  check_write_watchpoint b addr size = check_watchpoint b addr size b.write_watchpoints true

  -- The sum wraps for a base below 8 only, which no machine has; Go's slice would panic then.
  unfoldable pub in_dram : Bus D → ℕ → ℕ → Bool
  in_dram b addr size =
      if ltb addr b.dram_base then false else leb (add64 (addr - b.dram_base) size) b.dram_len

  unfoldable pub note_access : Bus D → ℕ → Bool → ℕ → Bus D
  note_access b name is_write n = record b {
    access = update b.access name (add_access (b.access name) is_write n);
  }

  unfoldable pub record_access_event : Bus D → ℕ → ℕ → ℕ → Bool → ℕ → Bus D
  record_access_event b name addr size is_write val =
      if size == 0
      then b
      else (let seq = add64 b.access_seq 1 in
          let event : AccessEvent = record {
            seq = seq;
            name = name;
            addr = addr;
            size = size;
            is_write = is_write;
            value = val;
          } in
          record b {
            access_seq = seq;
            access_timeline = push access_timeline_ring_size event b.access_timeline;
          })

  -- The log of an access to memory, which a switch turns on.
  unfoldable pub log_dram : Bus D → ℕ → ℕ → Bool → ℕ → Bus D
  log_dram b addr size is_write val =
      if b.trace_dram_access
      then record_access_event (note_access b dram_name is_write size) dram_name addr size is_write
          val
      else b

  -- An answer of a device, and the event that it is logged with if it is no error.
  unfoldable pub log_device : Bus D → Region → ℕ → ℕ → Bool → Option ℕ → Bus D
  log_device b r addr size is_write none = b
  log_device b r addr size is_write (some v) = record_access_event b r.name addr size is_write v

  abbrev pub value_at : Bus D → ℕ → ℕ → ℕ
  value_at b addr size = get_le b.dram (addr - b.dram_base) size

  abbrev pub quiet : Option ℕ → Bus D → Access (Bus D)
  quiet v b = record { value = v; after = b; signals = [] }

  -- `Peek`
  unfoldable pub peek : Bus D → ℕ → ℕ → Option ℕ
  peek b addr size =
      if in_dram b addr size && is_size size then some (value_at b addr size) else none

  -- `Load`, which copies an image into memory: `none` is its error.
  unfoldable pub load : Bus D → ℕ → List ℕ → Option (Bus D)
  load b addr bytes =
      if in_dram b addr (length bytes)
      then some (record b { dram = put_bytes bytes (addr - b.dram_base) b.dram })
      else none

module _ {D : Type 0} (ops : Devices D) where
  -- A call of a device's method, with the answer logged.
  unfoldable pub read_device_no_trace : Bus D → ℕ → ℕ → Option Region → Access (Bus D)
  read_device_no_trace b addr size none = quiet none b
  read_device_no_trace b addr size (some r) =
      let a = ops.read b.devices r.dev addr size in
      record { value = a.value; after = record b { devices = a.after }; signals = a.signals }

  unfoldable pub read_device : Bus D → ℕ → ℕ → Option Region → Access (Bus D)
  read_device b addr size none = quiet none b
  read_device b addr size (some r) =
      let noted = note_access b r.name false size in
      let a = ops.read noted.devices r.dev addr size in
      record {
        value = a.value;
        after = log_device (record noted { devices = a.after }) r addr size false a.value;
        signals = a.signals;
      }

  -- The value of a device's answer to a write is not read, and the event has the one written.
  unfoldable pub write_device : Bus D → ℕ → ℕ → ℕ → Option Region → Access (Bus D)
  write_device b addr size val none = quiet none b
  write_device b addr size val (some r) =
      let noted = note_access b r.name true size in
      let a = ops.write noted.devices r.dev addr size val in
      let logged = elim a.value as (λ _. Option ℕ) [ none ↦ none | some _ ↦ some val ] in
      record {
        value = a.value;
        after = log_device (record noted { devices = a.after }) r addr size true logged;
        signals = a.signals;
      }

  unfoldable pub read_no_trace : Bus D → ℕ → ℕ → Access (Bus D)
  read_no_trace b addr size =
      if in_dram b addr size
      then quiet (if is_size size then some (value_at b addr size) else none) b
      else read_device_no_trace b addr size (find_region addr size b.regions)

  unfoldable pub read : Bus D → ℕ → ℕ → Access (Bus D)
  read b addr size =
      let seen = check_read_watchpoint b addr size in
      if in_dram seen addr size
      then (let v = value_at seen addr size in
          if is_size size
          then quiet (some v) (log_dram seen addr size false v)
          else quiet none seen)
      else read_device seen addr size (find_region addr size seen.regions)

  -- A write to memory answers 0 for no error.
  unfoldable pub write : Bus D → ℕ → ℕ → ℕ → Access (Bus D)
  write b addr size val =
      let seen = check_write_watchpoint b addr size in
      if in_dram seen addr size
      then (let stored = record seen { dram = put_le seen.dram (addr - seen.dram_base) size val } in
          if is_size size
          then quiet (some 0) (log_dram stored addr size true val)
          else quiet none seen)
      else write_device seen addr size val (find_region addr size seen.regions)

  -- `Tick`: the devices that want it, in order.
  unfoldable pub tick_all : List ℕ → Bus D → ℕ → Access (Bus D)
  tick_all [] b cycles = quiet (some 0) b
  tick_all (dev ∷ devs) b cycles =
      let a = ops.tick b.devices dev cycles in
      let rest = tick_all devs (record b { devices = a.after }) cycles in
      record { value = rest.value; after = rest.after; signals = a.signals ++ rest.signals }

  unfoldable pub tick : Bus D → ℕ → Access (Bus D)
  tick b cycles = tick_all b.tick_devices b cycles

  -- The bus as a hart calls it.
  abbrev pub bus_platform :
      Option (Hart (Bus D) → ℕ → ℕ → List ℕ → Bool × ℕ × ℕ × Hart (Bus D)) → Platform (Bus D)
  bus_platform handler = record {
    read = read;
    read_no_trace = read_no_trace;
    write = write;
    tick = tick;
    handler = handler;
  }
