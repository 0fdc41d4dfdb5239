-- ===== src/Cpu/Compressed.antt =====
-- internal/cpu/exec_c.go: the 16-bit instructions.
use rvwasm.Base.{
  ℕ, ◌+◌, ◌*◌, ◌^◌, true, false, not, ◌&&◌, ◌==◌, if◌then◌else◌, ◌>>>◌, low, add64, sub64, shl64,
  u16, u32, and_not, bit_and, bit_or, bit_xor, Option, none, some,
}
use rvwasm.Cpu.Hart.{Hart, Platform, set_x, set_pc}
use rvwasm.Cpu.Alu.{sext, sext32, c_reg, c_reg2}
use rvwasm.Cpu.Trap.{raise_exception, exc_breakpoint}
use rvwasm.Cpu.Exec.{illegal, load_into, store, finish_op, sra64}
use rvwasm.Cpu.Base32.{jump_from}

infixl 60 ◌|||◌
abbrev ◌|||◌ : ℕ → ℕ → ℕ
a ||| b = bit_or a b

-- `(x >> k) & mask`, and `(x << k) & mask` on a uint16
abbrev right : ℕ → ℕ → ℕ → ℕ
right x k mask = bit_and (x >>> k) mask

abbrev left : ℕ → ℕ → ℕ → ℕ
left x k mask = bit_and (u16 (x * 2 ^ k)) mask

-- The offsets of the compressed loads, stores and stack instructions.
unfoldable pub c_addi4spn_imm : ℕ → ℕ
c_addi4spn_imm x = right x 7 0x30 ||| right x 1 0x3c0 ||| right x 4 0x4 ||| right x 2 0x8

unfoldable pub c_word_imm : ℕ → ℕ
c_word_imm x = right x 4 0x4 ||| right x 7 0x38 ||| left x 1 0x40

unfoldable pub c_double_imm : ℕ → ℕ
c_double_imm x = right x 7 0x38 ||| left x 1 0xc0

unfoldable pub c_lwsp_imm : ℕ → ℕ
c_lwsp_imm x = right x 2 0x1c ||| right x 7 0x20 ||| left x 4 0xc0

unfoldable pub c_ldsp_imm : ℕ → ℕ
c_ldsp_imm x = right x 2 0x18 ||| right x 7 0x20 ||| left x 4 0x1c0

unfoldable pub c_swsp_imm : ℕ → ℕ
c_swsp_imm x = right x 7 0x3c ||| right x 1 0xc0

unfoldable pub c_sdsp_imm : ℕ → ℕ
c_sdsp_imm x = right x 7 0x38 ||| right x 1 0x1c0

-- The six bits of an immediate or a shift amount.
unfoldable pub c_imm6_bits : ℕ → ℕ
c_imm6_bits x = right x 2 0x1f ||| right x 7 0x20

unfoldable pub c_imm6 : ℕ → ℕ
c_imm6 x = sext (c_imm6_bits x) 6

unfoldable pub c_addi16sp_imm : ℕ → ℕ
c_addi16sp_imm x =
    sext (right x 3 0x200 ||| right x 2 0x10 ||| left x 1 0x40 ||| left x 4 0x180 ||| left x 3 0x20)
      10

unfoldable pub c_j_imm : ℕ → ℕ
c_j_imm x =
    sext
      (low (x >>> 12) 1 * 2 ^ 11
        ||| low (x >>> 8) 1 * 2 ^ 10
        ||| low (x >>> 9) 2 * 2 ^ 8
        ||| low (x >>> 6) 1 * 2 ^ 7
        ||| low (x >>> 7) 1 * 2 ^ 6
        ||| low (x >>> 2) 1 * 2 ^ 5
        ||| low (x >>> 11) 1 * 2 ^ 4
        ||| low (x >>> 3) 3 * 2 ^ 1)
      12

unfoldable pub c_b_imm : ℕ → ℕ
c_b_imm x =
    sext
      (low (x >>> 12) 1 * 2 ^ 8
        ||| low (x >>> 5) 2 * 2 ^ 6
        ||| low (x >>> 2) 1 * 2 ^ 5
        ||| low (x >>> 10) 2 * 2 ^ 3
        ||| low (x >>> 3) 2 * 2 ^ 1)
      9

-- The value of a register-register instruction of quadrant 1, by its three selecting bits.
unfoldable pub c_reg_result : ℕ → ℕ → ℕ → Option ℕ
c_reg_result sel a b =
    if sel == 0
    then some (sub64 a b)
    else if sel == 1
    then some (bit_xor a b)
    else if sel == 2
    then some (bit_or a b)
    else if sel == 3
    then some (bit_and a b)
    else if sel == 4
    then some (sext32 (u32 (sub64 a b)))
    else if sel == 5
    then some (sext32 (u32 (a + b)))
    else none

-- The value that `execCArith` gives its register.
unfoldable pub c_arith_result : ℕ → ℕ → ℕ → Option ℕ
c_arith_result x a b =
    let op = low (x >>> 10) 2 in
    if op == 0
    then some (a >>> c_imm6_bits x)
    else if op == 1
    then some (sra64 a (c_imm6_bits x))
    else if op == 2
    then some (bit_and a (c_imm6 x))
    else c_reg_result (low (x >>> 5) 2 ||| low (x >>> 12) 1 * 2 ^ 2) a b

module _ {S : Type 0} where
  unfoldable pub exec_c_arith : ℕ → Hart S → Hart S
  exec_c_arith x h = finish_op x (c_reg2 x) (c_arith_result x (h.x (c_reg2 x)) (h.x (c_reg x))) h

  -- C.ADDI16SP and C.LUI
  unfoldable pub exec_c_lui : ℕ → ℕ → Hart S → Hart S
  exec_c_lui x rd h =
      let upper = shl64 (c_imm6 x) 12 in
      if rd == 2
      then (if c_addi16sp_imm x == 0
          then illegal x h
          else set_x h 2 (add64 (h.x 2) (c_addi16sp_imm x)))
      else if not (rd == 0)
      then (if upper == 0 then illegal x h else set_x h rd upper)
      else illegal x h

  unfoldable pub exec_c1 : ℕ → ℕ → Hart S → Hart S
  exec_c1 x f h =
      let rd = low (x >>> 7) 5 in
      if f == 0
      then (if rd == 0 then h else set_x h rd (add64 (h.x rd) (c_imm6 x)))
      else if f == 1
      then (if rd == 0 then illegal x h else set_x h rd (sext32 (u32 (h.x rd + c_imm6 x))))
      else if f == 2
      then (if rd == 0 then h else set_x h rd (c_imm6 x))
      else if f == 3
      then exec_c_lui x rd h
      else if f == 4
      then exec_c_arith x h
      else if f == 5
      then jump_from 2 (c_j_imm x) h
      else if f == 6
      then (if h.x (c_reg2 x) == 0 then jump_from 2 (c_b_imm x) h else h)
      else if f == 7
      then (if h.x (c_reg2 x) == 0 then h else jump_from 2 (c_b_imm x) h)
      else illegal x h

  -- C.JR, C.MV, C.EBREAK, C.JALR and C.ADD
  unfoldable pub exec_c_jump_move : ℕ → ℕ → ℕ → Hart S → Hart S
  exec_c_jump_move x rd rs2 h =
      if low (x >>> 12) 1 == 0
      then (if rs2 == 0
          then (if rd == 0 then illegal x h else set_pc h (and_not (h.x rd) 1))
          else (if rd == 0 then illegal x h else set_x h rd (h.x rs2)))
      else if rd == 0 && rs2 == 0
      then raise_exception h exc_breakpoint 0
      else if rs2 == 0
      then (let t = and_not (h.x rd) 1 in set_pc (set_x h 1 h.pc) t)
      else (if rd == 0 then illegal x h else set_x h rd (add64 (h.x rd) (h.x rs2)))

module _ {S : Type 0} (p : Platform S) where
  unfoldable pub exec_c0 : ℕ → ℕ → Hart S → Hart S
  exec_c0 x f h =
      let rd = c_reg x in
      let base = h.x (c_reg2 x) in
      if f == 0
      then (if c_addi4spn_imm x == 0
          then illegal x h
          else set_x h rd (add64 (h.x 2) (c_addi4spn_imm x)))
      else if f == 2
      then load_into p h rd (add64 base (c_word_imm x)) 4 true
      else if f == 3
      then load_into p h rd (add64 base (c_double_imm x)) 8 false
      else if f == 6
      then store p h (add64 base (c_word_imm x)) 4 (h.x rd)
      else if f == 7
      then store p h (add64 base (c_double_imm x)) 8 (h.x rd)
      else illegal x h

  unfoldable pub exec_c2 : ℕ → ℕ → Hart S → Hart S
  exec_c2 x f h =
      let rd = low (x >>> 7) 5 in
      let rs2 = low (x >>> 2) 5 in
      let sp = h.x 2 in
      if f == 0
      then (if rd == 0 then illegal x h else set_x h rd (shl64 (h.x rd) (c_imm6_bits x)))
      else if f == 2
      then (if rd == 0 then illegal x h else load_into p h rd (add64 sp (c_lwsp_imm x)) 4 true)
      else if f == 3
      then (if rd == 0 then illegal x h else load_into p h rd (add64 sp (c_ldsp_imm x)) 8 false)
      else if f == 4
      then exec_c_jump_move x rd rs2 h
      else if f == 6
      then store p h (add64 sp (c_swsp_imm x)) 4 (h.x rs2)
      else if f == 7
      then store p h (add64 sp (c_sdsp_imm x)) 8 (h.x rs2)
      else illegal x h

  unfoldable pub exec_c : ℕ → Hart S → Hart S
  exec_c x h =
      let q = low x 2 in
      let f = low (x >>> 13) 3 in
      if q == 0
      then exec_c0 x f h
      else if q == 1
      then exec_c1 x f h
      else if q == 2
      then exec_c2 x f h
      else illegal x h
