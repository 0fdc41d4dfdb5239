-- ===== src/Cpu/Base32.antt =====
-- `exec32` of internal/cpu/exec.go: decoding of the 32-bit instructions.
use rvwasm.Base.{
  ℕ, true, false, not, ◌&&◌, ◌==◌, if◌then◌else◌, ◌>>>◌, low, add64, sub64, and_not, none, some,
}
use rvwasm.Cpu.Hart.{Hart, Platform, set_x, set_pc}
use rvwasm.Cpu.Alu.{imm_i, imm_s, imm_b, imm_u, imm_j}
use rvwasm.Cpu.Exec.{
  illegal, load_into, store, branch_taken, imm_result, imm32_result, finish_op, exec_op, exec_op32,
  exec_amo, exec_system,
}

-- `rd`, `rs1`, `rs2`, `funct3` and `funct7` of an instruction.
abbrev pub rd_of : ℕ → ℕ
rd_of inst = low (inst >>> 7) 5

abbrev pub rs1_of : ℕ → ℕ
rs1_of inst = low (inst >>> 15) 5

abbrev pub rs2_of : ℕ → ℕ
rs2_of inst = low (inst >>> 20) 5

abbrev pub funct3_of : ℕ → ℕ
funct3_of inst = low (inst >>> 12) 3

abbrev pub funct7_of : ℕ → ℕ
funct7_of inst = low (inst >>> 25) 7

module _ {S : Type 0} where
  -- The program counter has moved past the instruction already.
  unfoldable pub jump_from : ℕ → ℕ → Hart S → Hart S
  jump_from len offset h = set_pc h (add64 (sub64 h.pc len) offset)

  unfoldable pub exec_lui : ℕ → Hart S → Hart S
  exec_lui inst h = set_x h (rd_of inst) (imm_u inst)

  unfoldable pub exec_auipc : ℕ → Hart S → Hart S
  exec_auipc inst h = set_x h (rd_of inst) (add64 (sub64 h.pc 4) (imm_u inst))

  unfoldable pub exec_jal : ℕ → Hart S → Hart S
  exec_jal inst h = jump_from 4 (imm_j inst) (set_x h (rd_of inst) h.pc)

  unfoldable pub exec_jalr : ℕ → Hart S → Hart S
  exec_jalr inst h =
      if not (funct3_of inst == 0)
      then illegal inst h
      else (let target = and_not (add64 (h.x (rs1_of inst)) (imm_i inst)) 1 in
          set_pc (set_x h (rd_of inst) h.pc) target)

  unfoldable pub exec_branch : ℕ → Hart S → Hart S
  exec_branch inst h =
      elim (branch_taken (funct3_of inst) (h.x (rs1_of inst)) (h.x (rs2_of inst))) [
        | none ↦ illegal inst h
        | some take ↦ if take then jump_from 4 (imm_b inst) h else h
      ]

  unfoldable pub exec_op_imm : ℕ → Hart S → Hart S
  exec_op_imm inst h = finish_op inst (rd_of inst) (imm_result inst (h.x (rs1_of inst))) h

  unfoldable pub exec_op_imm32 : ℕ → Hart S → Hart S
  exec_op_imm32 inst h = finish_op inst (rd_of inst) (imm32_result inst (h.x (rs1_of inst))) h

  -- FENCE and FENCE.I do nothing.
  unfoldable pub exec_fence : ℕ → Hart S → Hart S
  exec_fence inst h =
      if not (funct3_of inst == 0) && not (funct3_of inst == 1) then illegal inst h else h

module _ {S : Type 0} (p : Platform S) where
  unfoldable pub exec_load : ℕ → Hart S → Hart S
  exec_load inst h =
      let addr = add64 (h.x (rs1_of inst)) (imm_i inst) in
      let rd = rd_of inst in
      let funct3 = funct3_of inst in
      if funct3 == 0
      then load_into p h rd addr 1 true
      else if funct3 == 1
      then load_into p h rd addr 2 true
      else if funct3 == 2
      then load_into p h rd addr 4 true
      else if funct3 == 3
      then load_into p h rd addr 8 false
      else if funct3 == 4
      then load_into p h rd addr 1 false
      else if funct3 == 5
      then load_into p h rd addr 2 false
      else if funct3 == 6
      then load_into p h rd addr 4 false
      else illegal inst h

  unfoldable pub exec_store : ℕ → Hart S → Hart S
  exec_store inst h =
      let addr = add64 (h.x (rs1_of inst)) (imm_s inst) in
      let val = h.x (rs2_of inst) in
      let funct3 = funct3_of inst in
      if funct3 == 0
      then store p h addr 1 val
      else if funct3 == 1
      then store p h addr 2 val
      else if funct3 == 2
      then store p h addr 4 val
      else if funct3 == 3
      then store p h addr 8 val
      else illegal inst h

  unfoldable pub exec32 : ℕ → Hart S → Hart S
  exec32 inst h =
      let opcode = low inst 7 in
      let rd = rd_of inst in
      let rs1 = rs1_of inst in
      let rs2 = rs2_of inst in
      let funct3 = funct3_of inst in
      let funct7 = funct7_of inst in
      if opcode == 0x37
      then exec_lui inst h
      else if opcode == 0x17
      then exec_auipc inst h
      else if opcode == 0x6f
      then exec_jal inst h
      else if opcode == 0x67
      then exec_jalr inst h
      else if opcode == 0x63
      then exec_branch inst h
      else if opcode == 0x03
      then exec_load inst h
      else if opcode == 0x23
      then exec_store inst h
      else if opcode == 0x13
      then exec_op_imm inst h
      else if opcode == 0x1b
      then exec_op_imm32 inst h
      else if opcode == 0x33
      then exec_op rd rs1 rs2 funct3 funct7 inst h
      else if opcode == 0x3b
      then exec_op32 rd rs1 rs2 funct3 funct7 inst h
      else if opcode == 0x0f
      then exec_fence inst h
      else if opcode == 0x73
      then exec_system p inst rd rs1 funct3 h
      else if opcode == 0x2f
      then exec_amo p inst rd rs1 rs2 funct3 h
      else illegal inst h
