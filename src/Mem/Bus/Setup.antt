-- ===== src/Mem/Bus/Setup.antt =====
-- internal/mem/bus.go: putting a bus together, its watchpoints and the clearing of its logs.
use rvwasm.Base.{
  ℕ, zero, suc, ◌+◌, ◌-◌, Bool, true, false, Option, none, some, List, [], ◌∷◌, ◌++◌, ◌==◌,
  if◌then◌else◌, u16, u32,
}
use rvwasm.Ring.{empty_ring}
use rvwasm.Mem.Bus.{Bus, Watchpoint, AccessBucket, in_dram, peek}

-- The name "clint".
abbrev pub clint_name : ℕ
clint_name = 1

abbrev no_accesses : AccessBucket
no_accesses = record { read_ops = 0; read_bytes = 0; write_ops = 0; write_bytes = 0 }

-- What `AddWriteWatchpoint` and `AddReadWatchpoint` append.
unfoldable pub add_watchpoint : ℕ → ℕ → ℕ → List Watchpoint → List Watchpoint
add_watchpoint base size name ws =
    if size == 0 then ws else ws ++ record { base = base; size = size; name = name } ∷ []

-- `n` bytes of memory from an offset on.
unfoldable pub dram_bytes : (ℕ → ℕ) → ℕ → ℕ → List ℕ
dram_bytes mem off zero = []
dram_bytes mem off (suc n) = mem off ∷ dram_bytes mem (off + 1) n

module _ {D : Type 0} where
  unfoldable pub new_bus : D → ℕ → ℕ → Bus D
  new_bus devices base size = record {
    dram_base = base;
    dram = λ _. 0;
    dram_len = size;
    trace_dram_access = false;
    regions = [];
    tick_devices = [];
    devices = devices;
    write_watchpoints = [];
    read_watchpoints = [];
    last_watchpoint = none;
    access = λ _. no_accesses;
    access_timeline = empty_ring;
    access_seq = 0;
    watchpoint_hits = empty_ring;
  }

  unfoldable pub reset_dram : Bus D → Bus D
  reset_dram b = record b { dram = λ _. 0 }

  unfoldable pub set_trace_dram_access : Bus D → Bool → Bus D
  set_trace_dram_access b enable = record b { trace_dram_access = enable }

  -- `AddNamedDevice` with a name. The counts of a name that is new are 0 in the function already.
  unfoldable pub add_named_device : Bus D → ℕ → ℕ → ℕ → ℕ → Bus D
  add_named_device b base size name dev = record b {
    regions = b.regions ++ record { base = base; size = size; dev = dev; name = name } ∷ [];
    tick_devices = if name == clint_name then b.tick_devices ++ dev ∷ [] else b.tick_devices;
  }

  unfoldable pub add_write_watchpoint : Bus D → ℕ → ℕ → ℕ → Bus D
  add_write_watchpoint b base size name = record b {
    write_watchpoints = add_watchpoint base size name b.write_watchpoints;
  }

  unfoldable pub add_read_watchpoint : Bus D → ℕ → ℕ → ℕ → Bus D
  add_read_watchpoint b base size name = record b {
    read_watchpoints = add_watchpoint base size name b.read_watchpoints;
  }

  unfoldable pub clear_last_watchpoint : Bus D → Bus D
  clear_last_watchpoint b = record b { last_watchpoint = none }

  unfoldable pub clear_write_watchpoints : Bus D → Bus D
  clear_write_watchpoints b = clear_last_watchpoint (record b { write_watchpoints = [] })

  unfoldable pub clear_read_watchpoints : Bus D → Bus D
  clear_read_watchpoints b = clear_last_watchpoint (record b { read_watchpoints = [] })

  unfoldable pub clear_watchpoint_hits : Bus D → Bus D
  clear_watchpoint_hits b = record b { watchpoint_hits = empty_ring }

  unfoldable pub clear_access_timeline : Bus D → Bus D
  clear_access_timeline b = record b { access_timeline = empty_ring }

  unfoldable pub clear_access_histogram : Bus D → Bus D
  clear_access_histogram b = record b { access = λ _. no_accesses }

  unfoldable pub peek_bytes : Bus D → ℕ → ℕ → Option (List ℕ)
  peek_bytes b addr size =
      if in_dram b addr size then some (dram_bytes b.dram (addr - b.dram_base) size) else none

  unfoldable pub peek_u16 : Bus D → ℕ → ℕ × Bool
  peek_u16 b addr = elim (peek b addr 2) [ none ↦ (0, false) | some v ↦ (u16 v, true) ]

  unfoldable pub peek_u32 : Bus D → ℕ → ℕ × Bool
  peek_u32 b addr = elim (peek b addr 4) [ none ↦ (0, false) | some v ↦ (u32 v, true) ]

  unfoldable pub peek_u64 : Bus D → ℕ → ℕ × Bool
  peek_u64 b addr = elim (peek b addr 8) [ none ↦ (0, false) | some v ↦ (v, true) ]
