-- ===== src/Cpu/Invariant/Step.antt =====
-- The steps of a hart (`Step` and `Run` of internal/cpu/cpu.go) and an invariant of the privileged state.
use rvwasm.Base.{ℕ, zero, suc, true, false, List, [], ◌∷◌, arith, low, ◌>>>◌, add64, u32, u16}
use rvwasm.Cpu.Hart.{Hart, Platform, set_pc, trace_step, note_pc_profile}
use rvwasm.Cpu.Access.{AccessKind, AccessError, Result, ok, err}
use rvwasm.Cpu.Mmu.{read_virtual_fetch}
use rvwasm.Cpu.Mmu.Keeps.{read_virtual_fetch-Keeps, deliver-keeps}
use rvwasm.Cpu.Trap.{
  raise_access_error, take_first, check_interrupt, interrupt_order, exc_breakpoint,
  exc_instruction_misaligned,
}
use rvwasm.Cpu.Exec.{imm_result, imm32_result}
use rvwasm.Cpu.Alu.{imm_i, imm_s, c_reg, c_reg2}
use rvwasm.Cpu.Base32.{
  rd_of, rs1_of, rs2_of, funct3_of, funct7_of, jump_from, exec_lui, exec_auipc, exec_jal, exec_jalr,
  exec_branch, exec_op_imm, exec_op_imm32, exec_fence, exec_load, exec_store, exec32,
}
use rvwasm.Cpu.Compressed.{
  c_arith_result, c_word_imm, c_double_imm, c_lwsp_imm, c_ldsp_imm, c_swsp_imm, c_sdsp_imm,
  exec_c_arith, exec_c_lui, exec_c1, exec_c_jump_move, exec_c0, exec_c2, exec_c,
}
use rvwasm.Cpu.Step.{
  retire, tick, step32, fetch_and_execute, step, run, finish_fetch, finish_fetch32,
}
use rvwasm.Cpu.Invariant.Core.{Core, On, IsInvariant, HandlerKeeps}
use rvwasm.Cpu.Invariant.Exec.{
  access_invariant, raise_exception-keeps, raise_access_error-keeps, illegal-keeps, finish_op-keeps,
  load_into-keeps, store-keeps, exec_op-keeps, exec_op32-keeps, exec_amo-keeps, exec_system-keeps,
}

module _ {S : Type 0} (P : Core → Type 0) (inv : IsInvariant S P) (p : Platform S) where
  exec_load-keeps : (inst : ℕ) (h : Hart S) → On P h → On P (exec_load p inst h)
  unfolding exec_load
  exec_load-keeps inst h q =
      let addr = add64 (h.x (rs1_of inst)) (imm_i inst) in
      let rd = rd_of inst in
      ground (
        arith,
        load_into-keeps P inv p h rd addr 1 true q,
        load_into-keeps P inv p h rd addr 2 true q,
        load_into-keeps P inv p h rd addr 4 true q,
        load_into-keeps P inv p h rd addr 8 false q,
        load_into-keeps P inv p h rd addr 1 false q,
        load_into-keeps P inv p h rd addr 2 false q,
        load_into-keeps P inv p h rd addr 4 false q,
        illegal-keeps P inv inst h q,
      )

  exec_store-keeps : (inst : ℕ) (h : Hart S) → On P h → On P (exec_store p inst h)
  unfolding exec_store
  exec_store-keeps inst h q =
      let addr = add64 (h.x (rs1_of inst)) (imm_s inst) in
      let val = h.x (rs2_of inst) in
      ground (
        arith,
        store-keeps P inv p h addr 1 val q,
        store-keeps P inv p h addr 2 val q,
        store-keeps P inv p h addr 4 val q,
        store-keeps P inv p h addr 8 val q,
        illegal-keeps P inv inst h q,
      )

  exec_branch-keeps : (inst : ℕ) (h : Hart S) → On P h → On P (exec_branch inst h)
  unfolding exec_branch jump_from
  exec_branch-keeps inst h q = ground (arith, illegal-keeps P inv inst h q)

  exec_jalr-keeps : (inst : ℕ) (h : Hart S) → On P h → On P (exec_jalr inst h)
  unfolding exec_jalr
  exec_jalr-keeps inst h q = ground (arith, illegal-keeps P inv inst h q)

  exec32-keeps : HandlerKeeps P p → (inst : ℕ) (h : Hart S) → On P h → On P (exec32 p inst h)
  unfolding exec32 exec_lui exec_auipc exec_jal jump_from exec_op_imm exec_op_imm32 exec_fence
  exec32-keeps kept inst h q =
      let rd = rd_of inst in
      let rs1 = rs1_of inst in
      let rs2 = rs2_of inst in
      let funct3 = funct3_of inst in
      let funct7 = funct7_of inst in
      ground (
        arith,
        exec_jalr-keeps inst h q,
        exec_branch-keeps inst h q,
        exec_load-keeps inst h q,
        exec_store-keeps inst h q,
        finish_op-keeps P inv inst rd (imm_result inst (h.x rs1)) h q,
        finish_op-keeps P inv inst rd (imm32_result inst (h.x rs1)) h q,
        exec_op-keeps P inv rd rs1 rs2 funct3 funct7 inst h q,
        exec_op32-keeps P inv rd rs1 rs2 funct3 funct7 inst h q,
        exec_system-keeps P inv p kept inst rd rs1 funct3 h q,
        exec_amo-keeps P inv p inst rd rs1 rs2 funct3 h q,
        illegal-keeps P inv inst h q,
      )

  exec_c1-keeps : (x f : ℕ) (h : Hart S) → On P h → On P (exec_c1 x f h)
  unfolding exec_c1 exec_c_arith exec_c_lui jump_from
  exec_c1-keeps x f h q = ground (
    arith,
    illegal-keeps P inv x h q,
    finish_op-keeps P inv x (c_reg2 x) (c_arith_result x (h.x (c_reg2 x)) (h.x (c_reg x))) h q,
  )

  exec_c0-keeps : (x f : ℕ) (h : Hart S) → On P h → On P (exec_c0 p x f h)
  unfolding exec_c0
  exec_c0-keeps x f h q =
      let rd = c_reg x in
      let base = h.x (c_reg2 x) in
      ground (
        arith,
        illegal-keeps P inv x h q,
        load_into-keeps P inv p h rd (add64 base (c_word_imm x)) 4 true q,
        load_into-keeps P inv p h rd (add64 base (c_double_imm x)) 8 false q,
        store-keeps P inv p h (add64 base (c_word_imm x)) 4 (h.x rd) q,
        store-keeps P inv p h (add64 base (c_double_imm x)) 8 (h.x rd) q,
      )

  exec_c2-keeps : (x f : ℕ) (h : Hart S) → On P h → On P (exec_c2 p x f h)
  unfolding exec_c2 exec_c_jump_move
  exec_c2-keeps x f h q =
      let rd = low (x >>> 7) 5 in
      let rs2 = low (x >>> 2) 5 in
      let sp = h.x 2 in
      ground (
        arith,
        illegal-keeps P inv x h q,
        raise_exception-keeps P inv h exc_breakpoint 0 q,
        load_into-keeps P inv p h rd (add64 sp (c_lwsp_imm x)) 4 true q,
        load_into-keeps P inv p h rd (add64 sp (c_ldsp_imm x)) 8 false q,
        store-keeps P inv p h (add64 sp (c_swsp_imm x)) 4 (h.x rs2) q,
        store-keeps P inv p h (add64 sp (c_sdsp_imm x)) 8 (h.x rs2) q,
      )

  exec_c-keeps : (x : ℕ) (h : Hart S) → On P h → On P (exec_c p x h)
  unfolding exec_c
  exec_c-keeps x h q =
      let f = low (x >>> 13) 3 in
      ground (
        arith,
        exec_c0-keeps x f h q,
        exec_c1-keeps x f h q,
        exec_c2-keeps x f h q,
        illegal-keeps P inv x h q,
      )

  take_first-keeps : (causes : List ℕ) (h : Hart S) → On P h → On P (take_first h causes).0
  unfolding take_first
  take_first-keeps [] h q = q
  take_first-keeps (cause ∷ causes) h q =
      ground (arith, inv.keeps_trap h cause 0 true q, take_first-keeps causes h q)

  check_interrupt-keeps : (h : Hart S) → On P h → On P (check_interrupt h).0
  unfolding check_interrupt
  check_interrupt-keeps h q = ground (arith, take_first-keeps interrupt_order h q)

  retire-keeps : (oldpc raw width : ℕ) (h : Hart S) → On P h → On P (retire oldpc raw width h).0
  unfolding retire trace_step
  retire-keeps oldpc raw width h q = ground arith

  tick-keeps : (h : Hart S) → On P h → On P (tick p h)
  unfolding tick
  tick-keeps h q =
      let a = p.tick h.bus 1 in
      deliver-keeps (On P) (access_invariant P inv) a.signals (record h { bus = a.after }) q

  noted-keeps : (h : Hart S) (pc : ℕ) → On P h → On P (note_pc_profile h pc)
  unfolding note_pc_profile
  noted-keeps h pc q = ground arith

  fetch_failed-keeps :
      (h : Hart S) (e : AccessError) → On P h → On P (raise_access_error h AccessKind.fetch h.pc e)
  fetch_failed-keeps h e q = raise_access_error-keeps P inv h AccessKind.fetch h.pc e q

  module _ (kept : HandlerKeeps P p) where
    finish_fetch32-keeps :
        (oldpc : ℕ) (r : Result ℕ) (h : Hart S) → On P h → On P (finish_fetch32 p oldpc r h).0
    unfolding finish_fetch32
    finish_fetch32-keeps oldpc (err e) h q = fetch_failed-keeps h e q
    finish_fetch32-keeps oldpc (ok raw) h q =
        retire-keeps oldpc (u32 raw) 32 (exec32 p (u32 raw) (set_pc h (add64 h.pc 4)))
          (exec32-keeps kept (u32 raw) (set_pc h (add64 h.pc 4)) q)

    step32-keeps : (oldpc : ℕ) (h : Hart S) → On P h → On P (step32 p oldpc h).0
    unfolding step32
    step32-keeps oldpc h q =
        let (r, h') = read_virtual_fetch p h.pc 4 h in
        finish_fetch32-keeps oldpc r h'
          (read_virtual_fetch-Keeps (On P) (access_invariant P inv) p h.pc 4 h q)

    finish_fetch-keeps :
        (oldpc : ℕ) (r : Result ℕ) (h : Hart S) → On P h → On P (finish_fetch p oldpc r h).0
    unfolding finish_fetch
    finish_fetch-keeps oldpc (err e) h q = fetch_failed-keeps h e q
    finish_fetch-keeps oldpc (ok raw) h q =
        let done = exec_c p (u16 raw) (set_pc h (add64 h.pc 2)) in
        ground (
          arith,
          step32-keeps oldpc h q,
          retire-keeps oldpc (u32 raw) 16 done (exec_c-keeps (u16 raw) (set_pc h (add64 h.pc 2)) q),
        )

    fetch_and_execute-keeps : (h : Hart S) → On P h → On P (fetch_and_execute p h).0
    unfolding fetch_and_execute
    fetch_and_execute-keeps h q =
        let noted = note_pc_profile (record h { inst_pc = h.pc }) h.pc in
        let q' = noted-keeps (record h { inst_pc = h.pc }) h.pc q in
        let (r, h') = read_virtual_fetch p noted.pc 2 noted in
        ground (
          arith,
          raise_exception-keeps P inv noted exc_instruction_misaligned h.pc q',
          finish_fetch-keeps h.pc r h'
              (read_virtual_fetch-Keeps (On P) (access_invariant P inv) p noted.pc 2 noted q'),
        )

    pub step-keeps : (h : Hart S) → On P h → On P (step p h).0
    unfolding step
    step-keeps h q =
        let ticked = tick p (record h { trap_raised = false }) in
        let q' = tick-keeps (record h { trap_raised = false }) q in
        let (h', taken) = check_interrupt ticked in
        let q'' = check_interrupt-keeps ticked q' in
        ground (arith, q'', fetch_and_execute-keeps h' q'')

    pub run-keeps : (n : ℕ) (h : Hart S) → On P h → On P (run p n h).0
    unfolding run
    run-keeps zero h q = q
    run-keeps (suc n) h q =
        let (h', more) = step p h in ground (arith, step-keeps h q, run-keeps n h' (step-keeps h q))
