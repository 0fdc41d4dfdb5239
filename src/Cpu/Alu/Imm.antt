-- ===== src/Cpu/Alu/Imm.antt =====
-- internal/cpu/util.go: fields and immediates of an instruction.
use rvwasm.Base.{
  ℕ, ◌+◌, ◌-◌, ◌*◌, ◌^◌, ◌>>>◌, shl64, low, bit_and, bit_or, int64, int32, uint64, shr_ℤ,
}

-- `uint64(int64(v<<shift) >> shift)` with `shift` 64 less the width
unfoldable pub sext : ℕ → ℕ → ℕ
sext v width = uint64 (shr_ℤ (int64 (shl64 v (64 - width))) (64 - width))

-- `uint64(int64(int32(v)))` of a 32-bit word
unfoldable pub sext32 : ℕ → ℕ
sext32 v = uint64 (int32 v)

unfoldable pub imm_i : ℕ → ℕ
imm_i inst = sext (inst >>> 20) 12

unfoldable pub imm_s : ℕ → ℕ
imm_s inst = sext (bit_or ((inst >>> 25) * 2 ^ 5) (low (inst >>> 7) 5)) 12

unfoldable pub imm_b : ℕ → ℕ
imm_b inst =
    sext
      (bit_or
        (bit_or (bit_or ((inst >>> 31) * 2 ^ 12) (low (inst >>> 7) 1 * 2 ^ 11))
          (low (inst >>> 25) 6 * 2 ^ 5))
        (low (inst >>> 8) 4 * 2))
      13

unfoldable pub imm_u : ℕ → ℕ
imm_u inst = sext (bit_and inst 0xffff_f000) 32

unfoldable pub imm_j : ℕ → ℕ
imm_j inst =
    sext
      (bit_or
        (bit_or (bit_or ((inst >>> 31) * 2 ^ 20) (low (inst >>> 12) 8 * 2 ^ 12))
          (low (inst >>> 20) 1 * 2 ^ 11))
        (low (inst >>> 21) 10 * 2))
      21

-- The registers x8 to x15 of a compressed instruction, from bits 2 to 4 and from bits 7 to 9.
unfoldable pub c_reg : ℕ → ℕ
c_reg x = 8 + low (x >>> 2) 3

unfoldable pub c_reg2 : ℕ → ℕ
c_reg2 x = 8 + low (x >>> 7) 3
