-- ===== src/Cpu/Step.antt =====
-- internal/cpu/cpu.go: reset, one step of a hart, and a run of steps.
pub mod Zero
use rvwasm.Base.{
  ℕ, zero, suc, ◌+◌, ◌-◌, ◌*◌, ◌/◌, ◌%◌, ◌^◌, Bool, true, false, not, ◌&&◌, ◌||◌, ltb, leb, ◌==◌,
  if◌then◌else◌, low, add64, u32, u16, ones64, List, [], ◌∷◌,
}
use rvwasm.Base.Arrays.{update}
use rvwasm.Ring.{empty_ring}
use rvwasm.Cpu.Hart.{
  Hart, Platform, Diag, SbiStats, SbiClass, LastEcall, set_x, set_pc, trace_step, note_pc_profile,
  priv_m,
}
use rvwasm.Cpu.Access.{AccessKind, AccessError, Result, ok, err}
use rvwasm.Cpu.Csr.{init_csr}
use rvwasm.Cpu.Trap.{
  raise_exception, raise_access_error, check_interrupt, exc_instruction_misaligned,
}
use rvwasm.Cpu.Mmu.{deliver, read_virtual_fetch}
use rvwasm.Cpu.Base32.{exec32}
use rvwasm.Cpu.Compressed.{exec_c}

abbrev no_ecall : LastEcall
no_ecall = record {
  from_mode = 0;
  ext = 0;
  func = 0;
  args = 0 ∷ 0 ∷ 0 ∷ 0 ∷ 0 ∷ 0 ∷ [];
  at_cycle = 0;
}

abbrev no_sbi : SbiStats
no_sbi = record {
  last_class = SbiClass.unclassified;
  base_count = 0;
  time_count = 0;
  ipi_count = 0;
  rfence_count = 0;
  hsm_count = 0;
  srst_count = 0;
  legacy_count = 0;
  other_count = 0;
}

module _ {S : Type 0} where
  -- The switches for tracing and the handler stay as they are.
  unfoldable pub reset : Hart S → ℕ → ℕ → Hart S
  reset h entry dtb =
      let cleared = record h {
        x = λ _. 0;
        pc = entry;
        inst_pc = entry;
        mode = priv_m;
        cycle = 0;
        instret = 0;
        time = 0;
        running = false;
        halted = false;
        waiting = false;
        reservation = ones64;
        has_reservation = false;
        last_error = false;
        last_trap_cause = 0;
        last_trap_tval = 0;
        last_trap_interrupt = false;
        last_ecall = no_ecall;
        sbi = no_sbi;
        trap_raised = false;
        diag = record (h.diag) {
          trace_ring = empty_ring;
          csr_ring = empty_ring;
          csr_counts = λ _. record { reads = 0; writes = 0 };
          pc_profile = λ _. 0;
        };
        pmp_active = false;
        pmp_checked = false;
      } in
      set_x (set_x (init_csr cleared) 10 h.hart_id) 11 dtb

  -- `h.X[0] = 0`
  abbrev pub clear_x0 : Hart S → Hart S
  clear_x0 h = set_x h 0 0

  -- The end of a step, after the instruction `raw` of `width` bits from `oldpc`: the hart, and
  -- what `Step` returns.
  unfoldable pub retire : ℕ → ℕ → ℕ → Hart S → Hart S × Bool
  retire oldpc raw width h =
      let h' = clear_x0 h in
      if h'.trap_raised
      then (h', true)
      else (let t = trace_step h' oldpc raw width in
          let r = record t { instret = add64 t.instret 1 } in
          if r.last_error then (record r { halted = true }, false) else (r, true))

module _ {S : Type 0} (p : Platform S) where
  -- `h.Bus.Tick(1)` and the counters.
  unfoldable pub tick : Hart S → Hart S
  tick h =
      let a = p.tick h.bus 1 in
      let h' = deliver a.signals (record h { bus = a.after }) in
      record h' { time = add64 h'.time 1; cycle = add64 h'.cycle 1 }

  -- A fetch that failed.
  abbrev fetch_failed : Hart S → AccessError → Hart S × Bool
  fetch_failed h e = (clear_x0 (raise_access_error h AccessKind.fetch h.pc e), true)

  -- The second fetch, of all 32 bits, and the instruction.
  unfoldable pub finish_fetch32 : ℕ → Result ℕ → Hart S → Hart S × Bool
  finish_fetch32 oldpc (err e) h = fetch_failed h e
  finish_fetch32 oldpc (ok raw) h =
      retire oldpc (u32 raw) 32 (exec32 p (u32 raw) (set_pc h (add64 h.pc 4)))

  unfoldable pub step32 : ℕ → Hart S → Hart S × Bool
  step32 oldpc h = let (r, h') = read_virtual_fetch p h.pc 4 h in finish_fetch32 oldpc r h'

  -- The first 16 bits say how long the instruction is.
  unfoldable pub finish_fetch : ℕ → Result ℕ → Hart S → Hart S × Bool
  finish_fetch oldpc (err e) h = fetch_failed h e
  finish_fetch oldpc (ok raw) h =
      if low raw 2 == 3
      then step32 oldpc h
      else retire oldpc (u32 raw) 16 (exec_c p (u16 raw) (set_pc h (add64 h.pc 2)))

  -- A step that no interrupt and no wait has ended.
  unfoldable pub fetch_and_execute : Hart S → Hart S × Bool
  fetch_and_execute h =
      let noted = note_pc_profile (record h { inst_pc = h.pc }) h.pc in
      if not (low h.pc 1 == 0)
      then (clear_x0 (raise_exception noted exc_instruction_misaligned h.pc), true)
      else (let (r, h') = read_virtual_fetch p noted.pc 2 noted in finish_fetch h.pc r h')

  unfoldable pub step : Hart S → Hart S × Bool
  step h =
      if h.halted
      then (h, false)
      else (let (h', taken) = check_interrupt (tick (record h { trap_raised = false })) in
          if taken
          then (clear_x0 (record h' { waiting = false }), true)
          else if h'.waiting
          then (clear_x0 h', true)
          else fetch_and_execute h')

  -- At most `n` steps: the hart, and how many there were.
  unfoldable pub run : ℕ → Hart S → Hart S × ℕ
  run zero h = (h, 0)
  run (suc n) h =
      let (h', more) = step h in
      let rest = run n h' in
      if h.halted then (h, 0) else if more then (rest.0, rest.1 + 1) else (h', 0)
