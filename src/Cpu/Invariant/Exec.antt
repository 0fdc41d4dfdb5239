-- ===== src/Cpu/Invariant/Exec.antt =====
-- The instructions of internal/cpu and an invariant of the privileged state.
use rvwasm.Base.{
  ℕ, Bool, true, false, ◌≡◌, refl, List, Option, none, some, if-keeps, arith, low, ◌>>>◌, ◌==◌, u16,
  if◌then◌else◌, u32,
}
use rvwasm.Cpu.Hart.{
  Hart, Platform, set_x, trace_csr, trace_sbi_shim, observe_ecall, classify_sbi, trace_ecall,
}
use rvwasm.Cpu.Access.{AccessKind, AccessError, Result, ok, err}
use rvwasm.Cpu.Mmu.{read_virtual, write_virtual}
use rvwasm.Cpu.Mmu.Keeps.{IsAccessInvariant, read_virtual-Keeps, write_virtual-Keeps}
use rvwasm.Cpu.Trap.{
  exc_load_misaligned, exc_store_misaligned, exc_breakpoint, raise_exception, raise_access_error,
}
use rvwasm.Cpu.Csr.{csr_write, csr_read}
use rvwasm.Cpu.Exec.{
  illegal, load, store, finish_load, finish_store, finish_amo, amo_result, finish_shim,
  call_handler, apply_csr, load_into, finish_op, exec_op, exec_op32, load_reserved,
  store_conditional, amo_store, amo_modify, exec_amo, ecall_trap, ecall, exec_mret, exec_sret,
  exec_wfi, exec_sfence, finish_csr, exec_csr, csr_operand, op32_result, m32_result, exec_system,
}
use rvwasm.Cpu.Invariant.Core.{Core, On, IsInvariant, HandlerKeeps}

module _ {S : Type 0} (P : Core → Type 0) (inv : IsInvariant S P) where
  pub access_invariant : IsAccessInvariant {S = S} (On P)
  access_invariant = record {
    keeps_bus = λ h b q. q;
    keeps_pending = inv.keeps_pending;
    keeps_refresh = inv.keeps_refresh;
  }

  pub raise_exception-keeps :
      (h : Hart S) (cause tval : ℕ) → On P h → On P (raise_exception h cause tval)
  unfolding raise_exception
  raise_exception-keeps h cause tval q = inv.keeps_trap h cause tval false q

  pub raise_access_error-keeps :
      (h : Hart S) (k : AccessKind) (addr : ℕ) (e : AccessError)
      → On P h
      → On P (raise_access_error h k addr e)
  unfolding raise_access_error
  raise_access_error-keeps h k addr (AccessError.page_fault cause tval) q =
      raise_exception-keeps h cause tval q
  raise_access_error-keeps h k addr (AccessError.pmp_fault kind at) q =
      raise_exception-keeps h _ at q
  raise_access_error-keeps h k addr AccessError.bus_fault q = raise_exception-keeps h _ addr q

  pub illegal-keeps : (inst : ℕ) (h : Hart S) → On P h → On P (illegal inst h)
  unfolding illegal
  illegal-keeps inst h q = raise_exception-keeps h _ inst q

  pub finish_op-keeps :
      (inst rd : ℕ) (r : Option ℕ) (h : Hart S) → On P h → On P (finish_op inst rd r h)
  unfolding finish_op
  finish_op-keeps inst rd none h q = illegal-keeps inst h q
  finish_op-keeps inst rd (some v) h q = q

  pub exec_op-keeps :
      (rd rs1 rs2 funct3 funct7 inst : ℕ) (h : Hart S)
      → On P h
      → On P (exec_op rd rs1 rs2 funct3 funct7 inst h)
  unfolding exec_op
  exec_op-keeps rd rs1 rs2 funct3 funct7 inst h q = finish_op-keeps inst rd _ h q

  pub exec_op32-keeps :
      (rd rs1 rs2 funct3 funct7 inst : ℕ) (h : Hart S)
      → On P h
      → On P (exec_op32 rd rs1 rs2 funct3 funct7 inst h)
  unfolding exec_op32
  exec_op32-keeps rd rs1 rs2 funct3 funct7 inst h q =
      let a = u32 (h.x rs1) in
      let b = u32 (h.x rs2) in
      ground (
        arith,
        finish_op-keeps inst rd (op32_result funct3 funct7 a b) h q,
        finish_op-keeps 0 rd (m32_result funct3 a b) h q,
        illegal-keeps inst h q,
      )

  ecall_trap-keeps : (h : Hart S) → On P h → On P (ecall_trap h)
  unfolding ecall_trap
  ecall_trap-keeps h q = ground (
    arith,
    raise_exception-keeps h 8 0 q,
    raise_exception-keeps h 9 0 q,
    raise_exception-keeps h 11 0 q,
  )

  observe_ecall-keeps : (h : Hart S) → On P h → On P (observe_ecall h)
  unfolding observe_ecall trace_ecall classify_sbi
  observe_ecall-keeps h q = if-keeps (On P) h.diag.trace q q

  trace_csr-keeps :
      (h : Hart S) (addr old val : ℕ) (write : Bool)
      → On P h
      → On P (trace_csr h addr old val write)
  unfolding trace_csr
  trace_csr-keeps h addr old val write q = if-keeps (On P) h.diag.csr_trace q q

  trace_sbi_shim-keeps : (h : Hart S) (code value : ℕ) → On P h → On P (trace_sbi_shim h code value)
  unfolding trace_sbi_shim
  trace_sbi_shim-keeps h code value q = if-keeps (On P) h.diag.trace q q

  exec_mret-keeps : (inst : ℕ) (h : Hart S) → On P h → On P (exec_mret inst h)
  unfolding exec_mret
  exec_mret-keeps inst h q = if-keeps (On P) _ (illegal-keeps inst h q) (inv.keeps_mret h q)

  exec_sret-keeps : (inst : ℕ) (h : Hart S) → On P h → On P (exec_sret inst h)
  unfolding exec_sret
  exec_sret-keeps inst h q = ground (arith, illegal-keeps inst h q, inv.keeps_sret h q)

  exec_wfi-keeps : (inst : ℕ) (h : Hart S) → On P h → On P (exec_wfi inst h)
  unfolding exec_wfi
  exec_wfi-keeps inst h q = if-keeps (On P) _ (illegal-keeps inst h q) q

  exec_sfence-keeps : (inst : ℕ) (h : Hart S) → On P h → On P (exec_sfence inst h)
  unfolding exec_sfence
  exec_sfence-keeps inst h q = ground (arith, illegal-keeps inst h q)

  finish_csr-keeps :
      (csr rd old new : ℕ) (write : Bool) (h : Hart S)
      → On P h
      → On P (finish_csr csr rd old new write h)
  unfolding finish_csr
  finish_csr-keeps csr rd old new write h q =
      let h' = (if rd == 0 then h else set_x h rd old) in
      let q' = if-keeps (On P) (rd == 0) {x = h} {y = set_x h rd old} q q in
      if-keeps (On P) write
        (trace_csr-keeps (csr_write h' csr new) csr old new true
          (inv.keeps_csr_write h' csr new q'))
        q'

  apply_csr-keeps :
      (inst csr rd old : ℕ) (r : Option (ℕ × Bool)) (h : Hart S)
      → On P h
      → On P (apply_csr inst csr rd old r h)
  unfolding apply_csr
  apply_csr-keeps inst csr rd old none h q = illegal-keeps inst h q
  apply_csr-keeps inst csr rd old (some (new, write)) h q =
      ground (arith, illegal-keeps inst h q, finish_csr-keeps csr rd old new write h q)

  exec_csr-keeps :
      (inst rd rs1 funct3 : ℕ) (h : Hart S) → On P h → On P (exec_csr inst rd rs1 funct3 h)
  unfolding exec_csr
  exec_csr-keeps inst rd rs1 funct3 h q =
      let csr = u16 (inst >>> 20) in
      let old = csr_read h csr in
      let seen = trace_csr h csr old 0 false in
      let r = csr_operand funct3 old (h.x rs1) rs1 in
      ground (
        arith,
        illegal-keeps inst h q,
        apply_csr-keeps inst csr rd old r seen (trace_csr-keeps h csr old 0 false q),
      )

module _ {S : Type 0} (P : Core → Type 0) (inv : IsInvariant S P) (p : Platform S) where
  finish_load-keeps :
      (addr size : ℕ) (signed : Bool) (r : Result ℕ) (h : Hart S)
      → On P h
      → On P (finish_load addr size signed r h).1
  unfolding finish_load
  finish_load-keeps addr size signed (ok v) h q = q
  finish_load-keeps addr size signed (err e) h q =
      raise_access_error-keeps P inv h AccessKind.load addr e q

  finish_store-keeps :
      (addr : ℕ) (r : Result (Unit {0})) (h : Hart S) → On P h → On P (finish_store addr r h)
  unfolding finish_store
  finish_store-keeps addr (ok _) h q = q
  finish_store-keeps addr (err e) h q = raise_access_error-keeps P inv h AccessKind.store addr e q

  pub load-keeps :
      (h : Hart S) (addr size : ℕ) (signed : Bool) → On P h → On P (load p h addr size signed).1
  unfolding load
  load-keeps h addr size signed q =
      let (r, h') = read_virtual p addr size AccessKind.load h in
      ground (
        arith,
        raise_exception-keeps P inv h exc_load_misaligned addr q,
        finish_load-keeps addr size signed r h'
            (read_virtual-Keeps (On P) (access_invariant P inv) p addr size AccessKind.load h q),
      )

  pub store-keeps : (h : Hart S) (addr size val : ℕ) → On P h → On P (store p h addr size val)
  unfolding store
  store-keeps h addr size val q =
      let (r, h') = write_virtual p addr size val h in
      ground (
        arith,
        raise_exception-keeps P inv h exc_store_misaligned addr q,
        finish_store-keeps addr r h'
            (write_virtual-Keeps (On P) (access_invariant P inv) p addr size val h q),
      )

  pub load_into-keeps :
      (h : Hart S) (rd addr size : ℕ) (signed : Bool)
      → On P h
      → On P (load_into p h rd addr size signed)
  unfolding load_into
  load_into-keeps h rd addr size signed q = ground (arith, load-keeps h addr size signed q)

  load_reserved-keeps :
      (inst rd rs2 addr width : ℕ) (h : Hart S)
      → On P h
      → On P (load_reserved p inst rd rs2 addr width h)
  unfolding load_reserved
  load_reserved-keeps inst rd rs2 addr width h q =
      ground (arith, illegal-keeps P inv inst h q, load-keeps h addr width (width == 4) q)

  store_conditional-keeps :
      (rd rs2 addr width : ℕ) (h : Hart S) → On P h → On P (store_conditional p rd rs2 addr width h)
  unfolding store_conditional
  store_conditional-keeps rd rs2 addr width h q =
      ground (arith, store-keeps h addr width (h.x rs2) q)

  amo_store-keeps :
      (rd addr width old new : ℕ) (h : Hart S) → On P h → On P (amo_store p rd addr width old new h)
  unfolding amo_store
  amo_store-keeps rd addr width old new h q = ground (arith, store-keeps h addr width new q)

  finish_amo-keeps :
      (inst rd addr width old : ℕ) (r : Option ℕ) (h : Hart S)
      → On P h
      → On P (finish_amo p inst rd addr width old r h)
  unfolding finish_amo
  finish_amo-keeps inst rd addr width old none h q = illegal-keeps P inv inst h q
  finish_amo-keeps inst rd addr width old (some new) h q = amo_store-keeps rd addr width old new h q

  amo_modify-keeps :
      (inst op rd rs2 addr width : ℕ) (h : Hart S)
      → On P h
      → On P (amo_modify p inst op rd rs2 addr width h)
  unfolding amo_modify
  amo_modify-keeps inst op rd rs2 addr width h q =
      let (old, h') = load p h addr width false in
      let src = h'.x rs2 in
      let result =
        amo_result op width (if width == 4 then u32 old else old)
          (if width == 4 then u32 src else src) in
      let q' = load-keeps h addr width false q in
      ground (arith, q', finish_amo-keeps inst rd addr width old result h' q')

  pub exec_amo-keeps :
      (inst rd rs1 rs2 funct3 : ℕ) (h : Hart S)
      → On P h
      → On P (exec_amo p inst rd rs1 rs2 funct3 h)
  unfolding exec_amo
  exec_amo-keeps inst rd rs1 rs2 funct3 h q =
      let op = low (inst >>> 27) 5 in
      let addr = h.x rs1 in
      let width : ℕ = (if funct3 == 3 then 8 else 4) in
      ground (
        arith,
        illegal-keeps P inv inst h q,
        raise_exception-keeps P inv h exc_load_misaligned addr q,
        load_reserved-keeps inst rd rs2 addr width h q,
        store_conditional-keeps rd rs2 addr width h q,
        amo_modify-keeps inst op rd rs2 addr width h q,
      )

  finish_shim-keeps : (a : Bool × ℕ × ℕ × Hart S) → On P a.3 → On P (finish_shim a)
  unfolding finish_shim
  finish_shim-keeps (true, code, value, h) q =
      trace_sbi_shim-keeps P inv (set_x (set_x h 10 code) 11 value) code value q
  finish_shim-keeps (false, code, value, h) q = ecall_trap-keeps P inv h q

  ecall-keeps : HandlerKeeps P p → (h : Hart S) → On P h → On P (ecall p h)
  unfolding ecall
  ecall-keeps kept h q = go p.handler kept (observe_ecall h) (observe_ecall-keeps P inv h q)
    where
      go :
          (o : Option (Hart S → ℕ → ℕ → List ℕ → Bool × ℕ × ℕ × Hart S))
          → ((f : Hart S → ℕ → ℕ → List ℕ → Bool × ℕ × ℕ × Hart S)
              → o ≡ some f
              → (h : Hart S) (ext fn : ℕ) (args : List ℕ) → On P h
              → On P (f h ext fn args).3)
          → (seen : Hart S) → On P seen
          → On P (call_handler o seen)
      go none k seen q' = unfold call_handler in ecall_trap-keeps P inv seen q'
      go (some f) k seen q' =
          let ans = f seen seen.last_ecall.ext seen.last_ecall.func seen.last_ecall.args in
          let q'' =
            k f refl seen seen.last_ecall.ext seen.last_ecall.func seen.last_ecall.args q' in
          unfold call_handler in
          ground (arith, ecall_trap-keeps P inv seen q', finish_shim-keeps ans q'')

  pub exec_system-keeps :
      HandlerKeeps P p
      → (inst rd rs1 funct3 : ℕ) (h : Hart S) → On P h
      → On P (exec_system p inst rd rs1 funct3 h)
  unfolding exec_system
  exec_system-keeps kept inst rd rs1 funct3 h q = ground (
    arith,
    exec_csr-keeps P inv inst rd rs1 funct3 h q,
    ecall-keeps kept h q,
    raise_exception-keeps P inv h exc_breakpoint 0 q,
    exec_mret-keeps P inv inst h q,
    exec_sret-keeps P inv inst h q,
    exec_wfi-keeps P inv inst h q,
    exec_sfence-keeps P inv inst h q,
    illegal-keeps P inv inst h q,
  )
