-- ===== src/Cpu/Hart/Trace.antt =====
-- internal/cpu/trace.go: what the interpreter records while it runs.
use rvwasm.Base.{ℕ, Bool, [], ◌∷◌, ◌==◌, leb, ◌&&◌}
use rvwasm.Base.{if◌then◌else◌, add64}
use rvwasm.Base.Arrays.{update}
use rvwasm.Ring.{push}
use rvwasm.Cpu.Hart.State.{Hart, TraceLine, CsrLine, SbiClass, SbiStats, CsrAccessCount, priv_s}

abbrev pub trace_ring_size : ℕ
trace_ring_size = 512

abbrev pub csr_trace_ring_size : ℕ
csr_trace_ring_size = 256

module _ {S : Type 0} where
  -- The common end of the four tracers.
  abbrev record_line : Hart S → TraceLine → Hart S
  record_line h line =
      if h.diag.trace
      then record h {
        diag = record (h.diag) { trace_ring = push trace_ring_size line h.diag.trace_ring };
      }
      else h

  unfoldable pub trace_step : Hart S → ℕ → ℕ → ℕ → Hart S
  trace_step h oldpc raw width =
      record_line h (TraceLine.step_line h.cycle h.mode oldpc raw width h.pc)

  unfoldable pub trace_trap : Hart S → ℕ → ℕ → Bool → ℕ → Hart S
  trace_trap h cause tval interrupt target =
      record_line h (TraceLine.trap_line h.cycle interrupt cause tval target h.pc)

  unfoldable pub trace_ecall : Hart S → Hart S
  trace_ecall h = record_line h (
      TraceLine.ecall_line h.cycle h.mode h.sbi.last_class (h.x 17) (h.x 16) (h.x 10) (h.x 11)
        (h.x 12) (h.x 13))

  unfoldable pub trace_sbi_shim : Hart S → ℕ → ℕ → Hart S
  trace_sbi_shim h code value =
      record_line h
        (TraceLine.shim_line h.cycle h.sbi.last_class h.last_ecall.ext h.last_ecall.func code value)

-- The class of an extension number, as `classifySBI` counts it in S-mode.
unfoldable pub sbi_class : ℕ → SbiClass
sbi_class ext =
    if ext == 0x10
    then SbiClass.base
    else if ext == 0x54494d45
    then SbiClass.time
    else if ext == 0x735049
    then SbiClass.ipi
    else if ext == 0x52464e43
    then SbiClass.rfence
    else if ext == 0x48534d
    then SbiClass.hsm
    else if ext == 0x53525354
    then SbiClass.srst
    else if leb 1 ext && leb ext 8
    then SbiClass.legacy
    else SbiClass.other

unfoldable pub count_sbi : SbiClass → SbiStats → SbiStats
count_sbi SbiClass.unclassified s = record s { last_class = SbiClass.unclassified }
count_sbi SbiClass.base s = record s {
  last_class = SbiClass.base;
  base_count = add64 s.base_count 1;
}
count_sbi SbiClass.time s = record s {
  last_class = SbiClass.time;
  time_count = add64 s.time_count 1;
}
count_sbi SbiClass.ipi s = record s { last_class = SbiClass.ipi; ipi_count = add64 s.ipi_count 1 }
count_sbi SbiClass.rfence s = record s {
  last_class = SbiClass.rfence;
  rfence_count = add64 s.rfence_count 1;
}
count_sbi SbiClass.hsm s = record s { last_class = SbiClass.hsm; hsm_count = add64 s.hsm_count 1 }
count_sbi SbiClass.srst s = record s {
  last_class = SbiClass.srst;
  srst_count = add64 s.srst_count 1;
}
count_sbi SbiClass.legacy s = record s {
  last_class = SbiClass.legacy;
  legacy_count = add64 s.legacy_count 1;
}
count_sbi SbiClass.other s = record s {
  last_class = SbiClass.other;
  other_count = add64 s.other_count 1;
}

abbrev counted : CsrAccessCount → Bool → CsrAccessCount
counted c write =
    if write then record c { writes = add64 c.writes 1 } else record c { reads = add64 c.reads 1 }

module _ {S : Type 0} where
  unfoldable pub classify_sbi : Hart S → Hart S
  classify_sbi h = record h {
    sbi = count_sbi (if h.mode == priv_s then sbi_class (h.x 17) else SbiClass.unclassified) h.sbi;
  }

  unfoldable pub observe_ecall : Hart S → Hart S
  observe_ecall h =
      let seen = record h {
        last_ecall = record {
          from_mode = h.mode;
          ext = h.x 17;
          func = h.x 16;
          args = h.x 10 ∷ h.x 11 ∷ h.x 12 ∷ h.x 13 ∷ h.x 14 ∷ h.x 15 ∷ [];
          at_cycle = h.cycle;
        };
      } in
      trace_ecall (classify_sbi seen)

  unfoldable pub note_pc_profile : Hart S → ℕ → Hart S
  note_pc_profile h pc =
      if h.diag.profile
      then record h {
        diag = record (h.diag) {
          pc_profile = update h.diag.pc_profile pc (add64 (h.diag.pc_profile pc) 1);
        };
      }
      else h

  abbrev csr_line : Hart S → ℕ → ℕ → ℕ → Bool → CsrLine
  csr_line h addr old val write =
      if write
      then CsrLine.write_line h.cycle h.mode addr old val h.inst_pc
      else CsrLine.read_line h.cycle h.mode addr old h.inst_pc

  -- The word "read" or "write" that the source passes along follows from `write`.
  unfoldable pub trace_csr : Hart S → ℕ → ℕ → ℕ → Bool → Hart S
  trace_csr h addr old val write =
      if h.diag.csr_trace
      then record h {
        diag = record (h.diag) {
          csr_counts = update h.diag.csr_counts addr (counted (h.diag.csr_counts addr) write);
          csr_ring = push csr_trace_ring_size (csr_line h addr old val write) h.diag.csr_ring;
        };
      }
      else h
