-- ===== src/Cpu/Exec/Amo.antt =====
-- internal/cpu/exec_amo.go: load-reserved, store-conditional and the atomic operations.
use rvwasm.Base.{
  ℕ, ◌%◌, Bool, true, false, not, ◌&&◌, ltb, ◌==◌, if◌then◌else◌, ◌>>>◌, add64, low, u32, bit_and,
  bit_or, bit_xor, int64, int32, ltb_ℤ, Option, none, some,
}
use rvwasm.Cpu.Hart.{Hart, Platform, set_x}
use rvwasm.Cpu.Alu.{sext32}
use rvwasm.Cpu.Trap.{raise_exception, exc_load_misaligned}
use rvwasm.Cpu.Exec.Memory.{illegal, load, store}

-- The signed order at the width of the access.
abbrev less : ℕ → ℕ → ℕ → Bool
less width a b =
    if width == 4 then ltb_ℤ (int32 (u32 a)) (int32 (u32 b)) else ltb_ℤ (int64 a) (int64 b)

-- The value that an atomic operation stores; `none` is an illegal operation.
unfoldable pub amo_result : ℕ → ℕ → ℕ → ℕ → Option ℕ
amo_result op width old src =
    if op == 0x01
    then some src
    else if op == 0x00
    then some (add64 old src)
    else if op == 0x04
    then some (bit_xor old src)
    else if op == 0x0c
    then some (bit_and old src)
    else if op == 0x08
    then some (bit_or old src)
    else if op == 0x10
    then some (if less width old src then old else src)
    else if op == 0x14
    then some (if less width src old then old else src)
    else if op == 0x18
    then some (if ltb old src then old else src)
    else if op == 0x1c
    then some (if ltb src old then old else src)
    else none

module _ {S : Type 0} (p : Platform S) where
  unfoldable pub load_reserved : ℕ → ℕ → ℕ → ℕ → ℕ → Hart S → Hart S
  load_reserved inst rd rs2 addr width h =
      if not (rs2 == 0)
      then illegal inst h
      else (let (v, h') = load p h addr width (width == 4) in
          if h'.trap_raised
          then h'
          else (let h'' = set_x h' rd v in
              record h'' { reservation = addr; has_reservation = true }))

  unfoldable pub store_conditional : ℕ → ℕ → ℕ → ℕ → Hart S → Hart S
  store_conditional rd rs2 addr width h =
      if h.has_reservation && h.reservation == addr
      then (let h' = store p h addr width (h.x rs2) in
          if h'.trap_raised
          then h'
          else (let h'' = set_x h' rd 0 in record h'' { has_reservation = false }))
      else (let h' = set_x h rd 1 in record h' { has_reservation = false })

  -- The rest of an atomic operation, once it has a value to store.
  unfoldable pub amo_store : ℕ → ℕ → ℕ → ℕ → ℕ → Hart S → Hart S
  amo_store rd addr width old new h =
      let h' = store p h addr width new in
      if h'.trap_raised
      then h'
      else (let h'' = set_x h' rd (if width == 4 then sext32 (u32 old) else old) in
          if h''.has_reservation && h''.reservation == addr
          then record h'' { has_reservation = false }
          else h'')

  unfoldable pub finish_amo : ℕ → ℕ → ℕ → ℕ → ℕ → Option ℕ → Hart S → Hart S
  finish_amo inst rd addr width old none h = illegal inst h
  finish_amo inst rd addr width old (some new) h = amo_store rd addr width old new h

  unfoldable pub amo_modify : ℕ → ℕ → ℕ → ℕ → ℕ → ℕ → Hart S → Hart S
  amo_modify inst op rd rs2 addr width h =
      let (old, h') = load p h addr width false in
      if h'.trap_raised
      then h'
      else (let src = h'.x rs2 in
          let result =
            amo_result op width (if width == 4 then u32 old else old)
              (if width == 4 then u32 src else src) in
          finish_amo inst rd addr width old result h')

  unfoldable pub exec_amo : ℕ → ℕ → ℕ → ℕ → ℕ → Hart S → Hart S
  exec_amo inst rd rs1 rs2 funct3 h =
      let op = low (inst >>> 27) 5 in
      let addr = h.x rs1 in
      let width = (if funct3 == 3 then 8 else 4) in
      if not (funct3 == 3) && not (funct3 == 2)
      then illegal inst h
      else if not (addr % width == 0)
      then raise_exception h exc_load_misaligned addr
      else if op == 0x02
      then load_reserved inst rd rs2 addr width h
      else if op == 0x03
      then store_conditional rd rs2 addr width h
      else amo_modify inst op rd rs2 addr width h
