-- ===== src/Cpu/Exec/Arith.antt =====
-- The register instructions of internal/cpu/exec.go and exec_m.go.
use rvwasm.Base.{
  ℕ, ◌+◌, ◌*◌, ◌/◌, ◌%◌, ◌^◌, Bool, not, ◌&&◌, ◌||◌, ltb, leb, ◌==◌, if◌then◌else◌, ◌>>>◌, add64,
  sub64, add32, sub32, shl64, shl32, u32, low, bit_and, bit_or, bit_xor, ones64, int64, int32,
  uint64, uint32, shr_ℤ, quot_ℤ, rem_ℤ, ltb_ℤ, Option, none, some,
}
use rvwasm.Cpu.Hart.{Hart, set_x}
use rvwasm.Cpu.Alu.{sext32, m_result, imm_i}
use rvwasm.Cpu.Exec.Memory.{illegal}

-- `if c { 1 } else { 0 }`
abbrev pub flag : Bool → ℕ
flag c = if c then 1 else 0

-- `s64(a) < s64(b)`
abbrev pub slt : ℕ → ℕ → Bool
slt a b = ltb_ℤ (int64 a) (int64 b)

-- `uint64(s64(a) >> n)` and `uint32(int32(a) >> n)`
abbrev pub sra64 : ℕ → ℕ → ℕ
sra64 a n = uint64 (shr_ℤ (int64 a) n)

abbrev pub sra32 : ℕ → ℕ → ℕ
sra32 a n = uint32 (shr_ℤ (int32 a) n)

-- What a branch compares; `none` is an illegal `funct3`.
unfoldable pub branch_taken : ℕ → ℕ → ℕ → Option Bool
branch_taken funct3 a b =
    if funct3 == 0
    then some (a == b)
    else if funct3 == 1
    then some (not (a == b))
    else if funct3 == 4
    then some (slt a b)
    else if funct3 == 5
    then some (not (slt a b))
    else if funct3 == 6
    then some (ltb a b)
    else if funct3 == 7
    then some (leb b a)
    else none

-- The value of an OP-IMM instruction for the register value `a`, or `none` if it is illegal.
unfoldable pub imm_result : ℕ → ℕ → Option ℕ
imm_result inst a =
    let shamt = low (inst >>> 20) 6 in
    let funct6 = low (inst >>> 26) 6 in
    let funct3 = low (inst >>> 12) 3 in
    if funct3 == 0
    then some (add64 a (imm_i inst))
    else if funct3 == 2
    then some (flag (slt a (imm_i inst)))
    else if funct3 == 3
    then some (flag (ltb a (imm_i inst)))
    else if funct3 == 4
    then some (bit_xor a (imm_i inst))
    else if funct3 == 6
    then some (bit_or a (imm_i inst))
    else if funct3 == 7
    then some (bit_and a (imm_i inst))
    else if funct3 == 1
    then (if funct6 == 0 then some (shl64 a shamt) else none)
    else if funct6 == 0
    then some (a >>> shamt)
    else if funct6 == 0x10
    then some (sra64 a shamt)
    else none

-- The value of an OP-IMM-32 instruction.
unfoldable pub imm32_result : ℕ → ℕ → Option ℕ
imm32_result inst a =
    let shamt = low (inst >>> 20) 5 in
    let funct3 = low (inst >>> 12) 3 in
    let funct7 = low (inst >>> 25) 7 in
    if funct3 == 0
    then some (sext32 (u32 (a + imm_i inst)))
    else if funct3 == 1
    then (if funct7 == 0 then some (sext32 (shl32 (u32 a) shamt)) else none)
    else if funct3 == 5
    then (if funct7 == 0
        then some (sext32 (u32 a >>> shamt))
        else if funct7 == 0x20
        then some (sext32 (sra32 (u32 a) shamt))
        else none)
    else none

-- `execOP` without the M extension.
unfoldable pub op_result : ℕ → ℕ → ℕ → ℕ → Option ℕ
op_result funct3 funct7 a b =
    if funct7 == 0
    then (if funct3 == 0
        then some (add64 a b)
        else if funct3 == 1
        then some (shl64 a (low b 6))
        else if funct3 == 2
        then some (flag (slt a b))
        else if funct3 == 3
        then some (flag (ltb a b))
        else if funct3 == 4
        then some (bit_xor a b)
        else if funct3 == 5
        then some (a >>> low b 6)
        else if funct3 == 6
        then some (bit_or a b)
        else if funct3 == 7
        then some (bit_and a b)
        else none)
    else if funct7 == 0x20
    then (if funct3 == 0
        then some (sub64 a b)
        else if funct3 == 5
        then some (sra64 a (low b 6))
        else none)
    else if funct7 == 1
    then some (m_result funct3 a b)
    else none

-- `execM32` on two 32-bit words.
unfoldable pub m32_result : ℕ → ℕ → ℕ → Option ℕ
m32_result funct3 a b =
    if funct3 == 0
    then some (sext32 (u32 (a * b)))
    else if funct3 == 4
    then some (
        if b == 0
        then ones64
        else if a == 2 ^ 31 && b == 0xffff_ffff
        then sext32 a
        else sext32 (uint32 (quot_ℤ (int32 a) (int32 b))))
    else if funct3 == 5
    then some (if b == 0 then ones64 else sext32 (a / b))
    else if funct3 == 6
    then some (
        if b == 0
        then sext32 a
        else if a == 2 ^ 31 && b == 0xffff_ffff
        then 0
        else sext32 (uint32 (rem_ℤ (int32 a) (int32 b))))
    else if funct3 == 7
    then some (if b == 0 then sext32 a else sext32 (a % b))
    else none

-- `execOP32` without the M extension.
unfoldable pub op32_result : ℕ → ℕ → ℕ → ℕ → Option ℕ
op32_result funct3 funct7 a b =
    if funct7 == 0
    then (if funct3 == 0
        then some (sext32 (add32 a b))
        else if funct3 == 1
        then some (sext32 (shl32 a (low b 5)))
        else if funct3 == 5
        then some (sext32 (a >>> low b 5))
        else none)
    else if funct3 == 0
    then some (sext32 (sub32 a b))
    else if funct3 == 5
    then some (sext32 (sra32 a (low b 5)))
    else none

module _ {S : Type 0} where
  -- A result goes to its register; without one the instruction is illegal.
  unfoldable pub finish_op : ℕ → ℕ → Option ℕ → Hart S → Hart S
  finish_op inst rd none h = illegal inst h
  finish_op inst rd (some v) h = set_x h rd v

  unfoldable pub exec_op : ℕ → ℕ → ℕ → ℕ → ℕ → ℕ → Hart S → Hart S
  exec_op rd rs1 rs2 funct3 funct7 inst h =
      finish_op inst rd (op_result funct3 funct7 (h.x rs1) (h.x rs2)) h

  -- An illegal M instruction on words reports 0 in place of its bits.
  unfoldable pub exec_op32 : ℕ → ℕ → ℕ → ℕ → ℕ → ℕ → Hart S → Hart S
  exec_op32 rd rs1 rs2 funct3 funct7 inst h =
      let a = u32 (h.x rs1) in
      let b = u32 (h.x rs2) in
      if funct7 == 0 || funct7 == 0x20
      then finish_op inst rd (op32_result funct3 funct7 a b) h
      else if funct7 == 1
      then finish_op 0 rd (m32_result funct3 a b) h
      else illegal inst h
