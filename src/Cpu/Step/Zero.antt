-- ===== src/Cpu/Step/Zero.antt =====
-- Register x0 (`Step` in internal/cpu/cpu.go clears it at each of its ends).
use rvwasm.Base.{ℕ, zero, suc, false, ◌≡◌, refl, arith, add64, u32, u16, if-keeps}
use rvwasm.Cpu.Hart.{Hart, Platform, set_pc, trace_step, note_pc_profile}
use rvwasm.Cpu.Access.{Result, ok, err}
use rvwasm.Cpu.Compressed.{exec_c}
use rvwasm.Cpu.Csr.{init_csr}
use rvwasm.Cpu.Mmu.{read_virtual_fetch}
use rvwasm.Cpu.Trap.{check_interrupt}
use rvwasm.Cpu.Step.{
  clear_x0, retire, finish_fetch32, step32, finish_fetch, fetch_and_execute, step, run, tick, reset,
}

module _ {S : Type 0} where
  trace_step-x : (h : Hart S) (oldpc raw width : ℕ) → (trace_step h oldpc raw width).x 0 ≡ h.x 0
  unfolding trace_step
  trace_step-x h oldpc raw width = if-keeps (λ (t : Hart S). t.x 0 ≡ h.x 0) h.diag.trace refl refl

  retire-x0 : (oldpc raw width : ℕ) (h : Hart S) → (retire oldpc raw width h).0.x 0 ≡ 0
  unfolding retire
  retire-x0 oldpc raw width h = ground (arith, trace_step-x (clear_x0 h) oldpc raw width)

module _ {S : Type 0} (p : Platform S) where
  finish_fetch32-x0 :
      (oldpc : ℕ) (r : Result ℕ) (h : Hart S) → (finish_fetch32 p oldpc r h).0.x 0 ≡ 0
  unfolding finish_fetch32
  finish_fetch32-x0 oldpc (err e) h = refl
  finish_fetch32-x0 oldpc (ok raw) h = retire-x0 oldpc (u32 raw) 32 _

  step32-x0 : (oldpc : ℕ) (h : Hart S) → (step32 p oldpc h).0.x 0 ≡ 0
  unfolding step32
  step32-x0 oldpc h = let (r, h') = read_virtual_fetch p h.pc 4 h in finish_fetch32-x0 oldpc r h'

  finish_fetch-x0 : (oldpc : ℕ) (r : Result ℕ) (h : Hart S) → (finish_fetch p oldpc r h).0.x 0 ≡ 0
  unfolding finish_fetch
  finish_fetch-x0 oldpc (err e) h = refl
  finish_fetch-x0 oldpc (ok raw) h = ground (
    arith,
    step32-x0 oldpc h,
    retire-x0 oldpc (u32 raw) 16 (exec_c p (u16 raw) (set_pc h (add64 h.pc 2))),
  )

  fetch_and_execute-x0 : (h : Hart S) → (fetch_and_execute p h).0.x 0 ≡ 0
  unfolding fetch_and_execute
  fetch_and_execute-x0 h =
      let noted = note_pc_profile (record h { inst_pc = h.pc }) h.pc in
      let (r, h') = read_virtual_fetch p noted.pc 2 noted in
      ground (arith, finish_fetch-x0 h.pc r h')

  -- After a step of a hart that has not halted, from any registers, x0 is 0, however the step
  -- ends.
  pub step-x0 : (h : Hart S) → h.halted ≡ false → (step p h).0.x 0 ≡ 0
  unfolding step
  step-x0 h e =
      let (h', taken) = check_interrupt (tick p (record h { trap_raised = false })) in
      ground (arith, e, fetch_and_execute-x0 h')

  -- After any number of steps from a reset, whatever the instructions write.
  run-x0 : (n : ℕ) (h : Hart S) → h.x 0 ≡ 0 → (run p n h).0.x 0 ≡ 0
  unfolding run
  run-x0 zero h q = q
  run-x0 (suc n) h q = let (h', more) = step p h in ground (arith, q, step-x0 h, run-x0 n h')

  -- After any number of steps from a reset, for any bus, program and SBI handler, register x0 is
  -- 0.
  pub run-reset-x0 : (n : ℕ) (h : Hart S) (entry dtb : ℕ) → (run p n (reset h entry dtb)).0.x 0 ≡ 0
  unfolding reset init_csr
  run-reset-x0 n h entry dtb = run-x0 n (reset h entry dtb) refl
