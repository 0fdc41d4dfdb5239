-- ===== src/Tests/Machine.antt =====
-- A small machine: memory with a program, a bus without devices, and a hart.
use rvwasm.Base.{ℕ, Bool, true, false, List, [], ◌∷◌, none, some, ones64, refl}
use rvwasm.Ring.{empty_ring}
use rvwasm.Base.Arrays.{update}
use rvwasm.Mem.Bus.{Bus, Devices, put_bytes, bus_platform}
use rvwasm.Cpu.Hart.{Hart, Platform, SbiClass}
use rvwasm.Cpu.Addr
use rvwasm.Cpu.Invariant.Core.{Core, HandlerKeeps, one_handler-keeps}

abbrev pub no_devices : Devices (Unit {0})
no_devices = record {
  read = λ d _ _ _. record { value = none; after = d; signals = [] };
  write = λ d _ _ _ _. record { value = none; after = d; signals = [] };
  tick = λ d _ _. record { value = some 0; after = d; signals = [] };
}

-- `li t0, -1; csrw pmpcfg0, t0; csrw mstatus, t0; addi x0, t0, 1; ecall`
abbrev program : List ℕ
program =
    0x93 ∷ 0x02 ∷ 0xf0 ∷ 0xff ∷ 0x73 ∷ 0x90 ∷ 0x02 ∷ 0x3a ∷ 0x73 ∷ 0x90 ∷ 0x02 ∷ 0x30 ∷ 0x13 ∷ 0x80
    ∷ 0x12 ∷ 0x00 ∷ 0x73 ∷ 0x00 ∷ 0x00 ∷ 0x00 ∷ []

abbrev pub start : ℕ
start = 0x8000_0000

abbrev pub machine_bus : Bus (Unit {0})
machine_bus = record {
  dram_base = start;
  dram = put_bytes program 0 (λ _. 0);
  dram_len = 4096;
  trace_dram_access = true;
  regions = [];
  tick_devices = [];
  devices = tt;
  write_watchpoints = record { base = 0x8000_0100; size = 8; name = 1 } ∷ [];
  read_watchpoints = [];
  last_watchpoint = none;
  access = λ _. record { read_ops = 0; read_bytes = 0; write_ops = 0; write_bytes = 0 };
  access_timeline = empty_ring;
  access_seq = 0;
  watchpoint_hits = empty_ring;
}

-- An SBI handler that answers every call with success.
abbrev answer : Hart (Bus (Unit {0})) → ℕ → ℕ → List ℕ → Bool × ℕ × ℕ × Hart (Bus (Unit {0}))
answer h ext fn args = (true, 0, 0, h)

abbrev pub machine : Platform (Bus (Unit {0}))
machine = bus_platform no_devices (some answer)

pub machine-keeps : (P : Core → Type 0) → HandlerKeeps P machine
machine-keeps P = one_handler-keeps P machine answer refl (λ h ext fn args q. q)

-- A hart in S-mode with entry 0 of the PMP locked, and with machine and supervisor timer
-- interrupts pending and enabled.
abbrev pub hart : Hart (Bus (Unit {0}))
hart = record {
  x = λ _. 0;
  pc = start;
  inst_pc = start;
  mode = 1;
  bus = machine_bus;
  csr =
      update
        (update
          (update (update (update (λ _. 0) Addr.csr_pmpcfg0 0x9f) Addr.csr_pmpaddr0 0x2000_01ff)
            Addr.csr_mip 0xa0)
          Addr.csr_mie 0xa0)
        Addr.csr_medeleg 0x100;
  hart_id = 0;
  cycle = 0;
  instret = 0;
  time = 0;
  running = true;
  halted = false;
  waiting = false;
  reservation = ones64;
  has_reservation = false;
  last_trap_cause = 0;
  last_trap_tval = 0;
  last_trap_interrupt = false;
  last_error = false;
  trap_raised = false;
  last_ecall = record { from_mode = 0; ext = 0; func = 0; args = []; at_cycle = 0 };
  sbi = record {
    last_class = SbiClass.unclassified;
    base_count = 0;
    time_count = 0;
    ipi_count = 0;
    rfence_count = 0;
    hsm_count = 0;
    srst_count = 0;
    legacy_count = 0;
    other_count = 0;
  };
  sbi_shim = true;
  pmp_active = true;
  pmp_checked = true;
  diag = record {
    trace = true;
    trace_ring = empty_ring;
    csr_trace = true;
    csr_ring = empty_ring;
    csr_counts = λ _. record { reads = 0; writes = 0 };
    profile = false;
    pc_profile = λ _. 0;
  };
}

-- The same hart in M-mode.
abbrev pub machine_hart : Hart (Bus (Unit {0}))
machine_hart = record hart { mode = 3 }
