-- ===== src/Cpu/Hart/State.antt =====
-- The record `Hart` and the parameters of its run: the bus and the SBI handler.
use rvwasm.Base.{ℕ, Bool, Option, List}
use rvwasm.Ring.{Ring}

abbrev pub priv_u : ℕ
priv_u = 0

abbrev pub priv_s : ℕ
priv_s = 1

abbrev pub priv_m : ℕ
priv_m = 3

-- `LastSBIClass`; `unclassified` is the empty string.
pub data SbiClass : Type 0 where
  unclassified base time ipi rfence hsm srst legacy other : SbiClass

-- One line of the execution trace. The source formats these values, with the disassembly that is
-- a function of `raw` and `width`, into one string.
pub data TraceLine : Type 0 where
  step_line : (cycle mode oldpc raw width next : ℕ) → TraceLine
  trap_line : (cycle : ℕ) (interrupt : Bool) (cause tval target pc : ℕ) → TraceLine
  ecall_line : (cycle mode : ℕ) (class : SbiClass) (ext fn a0 a1 a2 a3 : ℕ) → TraceLine
  shim_line : (cycle : ℕ) (class : SbiClass) (ext fn code value : ℕ) → TraceLine

-- One line of the CSR trace.
pub data CsrLine : Type 0 where
  write_line : (cycle mode addr old new pc : ℕ) → CsrLine
  read_line : (cycle mode addr val pc : ℕ) → CsrLine

pub record CsrAccessCount : Type 0 where
  pub reads : ℕ
  pub writes : ℕ

-- The eight counters of SBI calls, and the class of the last.
pub record SbiStats : Type 0 where
  pub last_class : SbiClass
  pub base_count : ℕ
  pub time_count : ℕ
  pub ipi_count : ℕ
  pub rfence_count : ℕ
  pub hsm_count : ℕ
  pub srst_count : ℕ
  pub legacy_count : ℕ
  pub other_count : ℕ

-- The fields that only a debugger reads: the switches, the rings and the counters.
pub record Diag : Type 0 where
  pub trace : Bool
  pub trace_ring : Ring TraceLine
  pub csr_trace : Bool
  pub csr_ring : Ring CsrLine
  pub csr_counts : ℕ → CsrAccessCount
  pub profile : Bool
  pub pc_profile : ℕ → ℕ

pub record LastEcall : Type 0 where
  pub from_mode : ℕ
  pub ext : ℕ
  pub func : ℕ
  pub args : List ℕ
  pub at_cycle : ℕ

-- `S` is the state of the bus and of everything behind it. A register file or a map of CSRs is a
-- function: `X` is indexed by 5-bit fields only, and a key that a Go map lacks reads as 0.
-- `trap_raised`, `pmp_active` and `pmp_checked` are the source's flags of those names.
pub record Hart (S : Type 0) : Type 0 where
  pub x : ℕ → ℕ
  pub pc : ℕ
  pub inst_pc : ℕ
  pub mode : ℕ
  pub bus : S
  pub csr : ℕ → ℕ
  pub hart_id : ℕ
  pub cycle : ℕ
  pub instret : ℕ
  pub time : ℕ
  pub running : Bool
  pub halted : Bool
  pub waiting : Bool
  pub reservation : ℕ
  pub has_reservation : Bool
  pub last_trap_cause : ℕ
  pub last_trap_tval : ℕ
  pub last_trap_interrupt : Bool
  pub last_error : Bool
  pub trap_raised : Bool
  pub last_ecall : LastEcall
  pub sbi : SbiStats
  pub sbi_shim : Bool
  pub pmp_active : Bool
  pub pmp_checked : Bool
  pub diag : Diag

-- What a call into the bus does: its value (`none` is the error), the bus after it, and the calls
-- of `SetPending` that devices made on this hart meanwhile, in order, each a mask and a level.
pub record Access (S : Type 0) : Type 0 where
  pub value : Option ℕ
  pub after : S
  pub signals : List (ℕ × Bool)

-- The bus and the SBI handler as the hart calls them. `read`, `read_no_trace` take an address and a size, `write` an address, a size and
-- a value; the value of a successful write is not read. `handler` is `SBIHandler`, with `none`
-- for nil; it answers whether it handled the call, an error code and a value, and may change the
-- hart that it is given.
pub record Platform (S : Type 0) : Type 0 where
  pub read : S → ℕ → ℕ → Access S
  pub read_no_trace : S → ℕ → ℕ → Access S
  pub write : S → ℕ → ℕ → ℕ → Access S
  pub tick : S → ℕ → Access S
  pub handler : Option (Hart S → ℕ → ℕ → List ℕ → Bool × ℕ × ℕ × Hart S)
