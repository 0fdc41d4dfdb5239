-- ===== src/Cpu/Exec/System.antt =====
-- internal/cpu/exec_system.go: environment calls, returns, waiting, and the CSR instructions.
use rvwasm.Base.{
  ℕ, Bool, true, false, not, ◌&&◌, ◌||◌, ltb, ◌==◌, if◌then◌else◌, ◌>>>◌, has, and_not, u16,
  bit_and, bit_or, Option, none, some, List,
}
use rvwasm.Cpu.Addr
use rvwasm.Cpu.Hart.{
  Hart, Platform, set_x, observe_ecall, trace_sbi_shim, trace_csr, priv_u, priv_s, priv_m,
}
use rvwasm.Cpu.Csr.{csr_exists, csr_allowed, csr_counter_allowed, csr_read, csr_write}
use rvwasm.Cpu.Trap.{
  raise_exception, mret, sret, exc_ecall_u, exc_ecall_s, exc_ecall_m, exc_breakpoint,
}
use rvwasm.Cpu.Exec.Memory.{illegal}

-- The value that a CSR instruction writes, and whether it writes; `none` is an illegal `funct3`.
unfoldable pub csr_operand : ℕ → ℕ → ℕ → ℕ → Option (ℕ × Bool)
csr_operand funct3 old reg rs1 =
    if funct3 == 1
    then some (reg, true)
    else if funct3 == 2
    then some (bit_or old reg, not (rs1 == 0))
    else if funct3 == 3
    then some (and_not old reg, not (rs1 == 0))
    else if funct3 == 5
    then some (rs1, true)
    else if funct3 == 6
    then some (bit_or old rs1, not (rs1 == 0))
    else if funct3 == 7
    then some (and_not old rs1, not (rs1 == 0))
    else none

module _ {S : Type 0} where
  unfoldable pub ecall_trap : Hart S → Hart S
  ecall_trap h =
      if h.mode == priv_u
      then raise_exception h exc_ecall_u 0
      else if h.mode == priv_s
      then raise_exception h exc_ecall_s 0
      else raise_exception h exc_ecall_m 0

  -- What a handler has answered.
  unfoldable pub finish_shim : Bool × ℕ × ℕ × Hart S → Hart S
  finish_shim (handled, code, value, h) =
      if handled then trace_sbi_shim (set_x (set_x h 10 code) 11 value) code value else ecall_trap h

  unfoldable pub call_handler :
      Option (Hart S → ℕ → ℕ → List ℕ → Bool × ℕ × ℕ × Hart S) → Hart S → Hart S
  call_handler none h = ecall_trap h
  call_handler (some handler) h =
      if h.mode == priv_s && h.sbi_shim
      then finish_shim (handler h h.last_ecall.ext h.last_ecall.func h.last_ecall.args)
      else ecall_trap h

  -- The handler is called in S-mode, if it is set and the shim is on.
  unfoldable pub ecall : Platform S → Hart S → Hart S
  ecall p h = call_handler p.handler (observe_ecall h)

  unfoldable pub exec_mret : ℕ → Hart S → Hart S
  exec_mret inst h = if not (h.mode == priv_m) then illegal inst h else mret h

  unfoldable pub exec_sret : ℕ → Hart S → Hart S
  exec_sret inst h =
      if ltb h.mode priv_s
      then illegal inst h
      else if h.mode == priv_s && has (h.csr Addr.csr_mstatus) Addr.mstatus_tsr
      then illegal inst h
      else sret h

  unfoldable pub exec_wfi : ℕ → Hart S → Hart S
  exec_wfi inst h =
      if not (h.mode == priv_m) && has (h.csr Addr.csr_mstatus) Addr.mstatus_tw
      then illegal inst h
      else record h { waiting = true }

  -- SFENCE.VMA does nothing where it is allowed.
  unfoldable pub exec_sfence : ℕ → Hart S → Hart S
  exec_sfence inst h =
      if ltb h.mode priv_s
      then illegal inst h
      else if h.mode == priv_s && has (h.csr Addr.csr_mstatus) Addr.mstatus_tvm
      then illegal inst h
      else h

  -- The write of the old value to the register, and then that of the CSR.
  unfoldable pub finish_csr : ℕ → ℕ → ℕ → ℕ → Bool → Hart S → Hart S
  finish_csr csr rd old new write h =
      let h' = (if rd == 0 then h else set_x h rd old) in
      if write then trace_csr (csr_write h' csr new) csr old new true else h'

  unfoldable pub apply_csr : ℕ → ℕ → ℕ → ℕ → Option (ℕ × Bool) → Hart S → Hart S
  apply_csr inst csr rd old none h = illegal inst h
  apply_csr inst csr rd old (some (new, write)) h =
      if write && not (csr_allowed h csr false)
      then illegal inst h
      else finish_csr csr rd old new write h

  unfoldable pub exec_csr : ℕ → ℕ → ℕ → ℕ → Hart S → Hart S
  exec_csr inst rd rs1 funct3 h =
      let csr = u16 (inst >>> 20) in
      if h.mode == priv_s && csr == Addr.csr_satp && has (h.csr Addr.csr_mstatus) Addr.mstatus_tvm
      then illegal inst h
      else if not (csr_exists csr)
          || not (csr_allowed h csr true)
          || not (csr_counter_allowed h csr)
      then illegal inst h
      else (let old = csr_read h csr in
          let h' = trace_csr h csr old 0 false in
          apply_csr inst csr rd old (csr_operand funct3 old (h.x rs1) rs1) h')

  unfoldable pub exec_system : Platform S → ℕ → ℕ → ℕ → ℕ → Hart S → Hart S
  exec_system p inst rd rs1 funct3 h =
      if not (funct3 == 0)
      then exec_csr inst rd rs1 funct3 h
      else if inst == 0x0000_0073
      then ecall p h
      else if inst == 0x0010_0073
      then raise_exception h exc_breakpoint 0
      else if inst == 0x3020_0073
      then exec_mret inst h
      else if inst == 0x1020_0073
      then exec_sret inst h
      else if inst == 0x1050_0073
      then exec_wfi inst h
      else if bit_and inst 0xfe00_7fff == 0x1200_0073
      then exec_sfence inst h
      else illegal inst h
