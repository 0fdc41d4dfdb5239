-- ===== src/Dev/Clint.antt =====
-- internal/dev/clint.go: the timer and the software interrupts of each hart.
pub mod Lines
use rvwasm.Base.{
  ℕ, zero, suc, ◌+◌, ◌-◌, ◌*◌, ◌/◌, ◌%◌, ◌^◌, Bool, true, false, not, ◌&&◌, ◌||◌, List, [], ◌∷◌,
  ltb, leb, ◌==◌, if◌then◌else◌, has, add64, sub64, ones64,
}
use rvwasm.Base.Arrays.{update}
use rvwasm.Dev.Registers.{read_le, write_le}

abbrev clint_base : ℕ
clint_base = 0x0200_0000

abbrev pub mip_msip : ℕ
mip_msip = 2 ^ 3

abbrev pub mip_mtip : ℕ
mip_mtip = 2 ^ 7

-- `harts` is the length of `MSIP` and of `MTimeCmp`.
pub record Clint : Type 0 where
  pub harts : ℕ
  pub msip : ℕ → ℕ
  pub mtimecmp : ℕ → ℕ
  pub mtime : ℕ

-- A call of `SetPending`: the hart, the bit of mip and its level.
pub record Signal : Type 0 where
  pub hart : ℕ
  pub mask : ℕ
  pub level : Bool

-- `NewCLINTMulti`
unfoldable pub new_clint : ℕ → Clint
new_clint harts = record {
  harts = if harts == 0 then 1 else harts;
  msip = λ _. 0;
  mtimecmp = λ _. ones64;
  mtime = 0;
}

abbrev pub soft_level : Clint → ℕ → Bool
soft_level c hart = has (c.msip hart) 1

abbrev pub timer_level : Clint → ℕ → Bool
timer_level c hart = leb (c.mtimecmp hart) c.mtime

-- The loop of `update` over the harts from `hart` on, with the rounds left.
unfoldable pub levels_from : Clint → ℕ → ℕ → List Signal
levels_from c zero hart = []
levels_from c (suc n) hart =
    record { hart = hart; mask = mip_msip; level = soft_level c hart }
    ∷ record { hart = hart; mask = mip_mtip; level = timer_level c hart }
    ∷ levels_from c n (hart + 1)

abbrev pub told : Clint → Clint × List Signal
told c = (c, levels_from c c.harts 0)

unfoldable pub clint_read : Clint → ℕ → ℕ → ℕ
clint_read c addr size =
    let off = sub64 addr clint_base in
    let cmp_off = off - 0x4000 in
    if ltb off 0x4000
    then (if ltb (off / 4) c.harts then read_le 4 (c.msip (off / 4)) (off % 4) size else 0)
    else if ltb off (0x4000 + c.harts * 8)
    then read_le 8 (c.mtimecmp (cmp_off / 8)) (cmp_off % 8) size
    else if leb 0xbff8 off && ltb off 0xc000
    then read_le 8 c.mtime (off - 0xbff8) size
    else 0

-- The part of `Write` before its `update`.
unfoldable pub store_register : Clint → ℕ → ℕ → ℕ → Clint
store_register c addr size val =
    let off = sub64 addr clint_base in
    let cmp_off = off - 0x4000 in
    if ltb off 0x4000
    then (if ltb (off / 4) c.harts
        then record c {
          msip = update c.msip (off / 4) (write_le 4 (c.msip (off / 4)) (off % 4) size val);
        }
        else c)
    else if ltb off (0x4000 + c.harts * 8)
    then record c {
      mtimecmp =
          update c.mtimecmp (cmp_off / 8)
            (write_le 8 (c.mtimecmp (cmp_off / 8)) (cmp_off % 8) size val);
    }
    else if leb 0xbff8 off && ltb off 0xc000
    then record c { mtime = write_le 8 c.mtime (off - 0xbff8) size val }
    else c

unfoldable pub clint_write : Clint → ℕ → ℕ → ℕ → Clint × List Signal
clint_write c addr size val = told (store_register c addr size val)

-- The loop of `Tick`: whether a compare is due.
unfoldable pub any_due : Clint → ℕ → ℕ → Bool
any_due c zero hart = false
any_due c (suc n) hart =
    let rest = any_due c n (hart + 1) in if timer_level c hart then true else rest

unfoldable pub clint_tick : Clint → ℕ → Clint × List Signal
clint_tick c cycles =
    let c' = record c { mtime = add64 c.mtime cycles } in
    if any_due c' c'.harts 0 then told c' else (c', [])

unfoldable pub set_timer_compare_hart : Clint → ℕ → ℕ → Clint × List Signal
set_timer_compare_hart c hart v =
    told (if ltb hart c.harts then record c { mtimecmp = update c.mtimecmp hart v } else c)

unfoldable pub set_software_interrupt_hart : Clint → ℕ → Bool → Clint × List Signal
set_software_interrupt_hart c hart v =
    told
      (if ltb hart c.harts then record c { msip = update c.msip hart (if v then 1 else 0) } else c)
