-- ===== src/Cpu/Alu.antt =====
-- internal/cpu/util.go and the operations of internal/cpu/exec_m.go and exec_amo.go as functions of
-- values: immediates, sign extension, multiplication and division.
mod Imm
unfoldable pub use Imm.*
use rvwasm.Base.{
  ℕ, zero, suc, ◌+◌, ◌-◌, ◌*◌, ◌/◌, ◌%◌, ◌^◌, Bool, true, false, not, ◌&&◌, ◌||◌, ltb, leb, ◌==◌,
  if◌then◌else◌, sub64, u32, u64, low, bit_and, bit_or, bit_xor, ones64, ℤ, pos, negsuc, int64,
  int32, uint64, uint32, quot_ℤ, rem_ℤ, ltb_ℤ,
}

-- The high word of `mathbits.Mul64`.
abbrev pub mul64_hi : ℕ → ℕ → ℕ
mul64_hi a b = a * b / 2 ^ 64

unfoldable pub mulh_signed : ℕ → ℕ → ℕ
mulh_signed a b =
    let hi = mul64_hi a b in
    let hi' = (if ltb_ℤ (int64 a) (pos 0) then sub64 hi b else hi) in
    if ltb_ℤ (int64 b) (pos 0) then sub64 hi' a else hi'

unfoldable pub mulh_signed_unsigned : ℕ → ℕ → ℕ
mulh_signed_unsigned a b =
    let hi = mul64_hi a b in if ltb_ℤ (int64 a) (pos 0) then sub64 hi b else hi

unfoldable pub div_signed : ℕ → ℕ → ℕ
div_signed a b =
    if b == 0
    then ones64
    else if a == 2 ^ 63 && b == ones64
    then a
    else uint64 (quot_ℤ (int64 a) (int64 b))

unfoldable pub rem_signed : ℕ → ℕ → ℕ
rem_signed a b =
    if b == 0
    then a
    else if a == 2 ^ 63 && b == ones64
    then 0
    else uint64 (rem_ℤ (int64 a) (int64 b))

unfoldable pub div_unsigned : ℕ → ℕ → ℕ
div_unsigned a b = if b == 0 then ones64 else a / b

unfoldable pub rem_unsigned : ℕ → ℕ → ℕ
rem_unsigned a b = if b == 0 then a else a % b

-- The value that `execM` stores for each `funct3`.
unfoldable pub m_result : ℕ → ℕ → ℕ → ℕ
m_result funct3 a b =
    if funct3 == 0
    then u64 (a * b)
    else if funct3 == 1
    then mulh_signed a b
    else if funct3 == 2
    then mulh_signed_unsigned a b
    else if funct3 == 3
    then mul64_hi a b
    else if funct3 == 4
    then div_signed a b
    else if funct3 == 5
    then div_unsigned a b
    else if funct3 == 6
    then rem_signed a b
    else rem_unsigned a b
