-- ===== src/Dev/Syscon.antt =====
-- internal/dev/syscon.go: the register that powers the machine off or reboots it.
use rvwasm.Base.{
  ℕ, ◌*◌, ◌||◌, List, [], ◌∷◌, leb, ◌==◌, if◌then◌else◌, and_not, bit_and, bit_or, low, u8, u16,
  u32, sub64, ◌>>>◌, shl32,
}

abbrev syscon_base : ℕ
syscon_base = 0x0010_0000

abbrev pub syscon_poweroff_value : ℕ
syscon_poweroff_value = 0x5555

abbrev pub syscon_reboot_value : ℕ
syscon_reboot_value = 0x7777

-- The calls of `OnPoweroff` and `OnReboot`.
pub data SysconEvent : Type 0 where
  poweroff reboot : SysconEvent

-- Shifts of the part of the register that an access of a byte or a half word is to.
abbrev byte_shift : ℕ → ℕ
byte_shift off = low off 2 * 8

abbrev half_shift : ℕ → ℕ
half_shift off = bit_and off 2 * 8

unfoldable pub syscon_read : ℕ → ℕ → ℕ → ℕ
syscon_read value addr size =
    let off = sub64 addr syscon_base in
    if size == 1
    then u8 (value >>> byte_shift off)
    else if size == 2
    then u16 (value >>> half_shift off)
    else if size == 4 || size == 8
    then value
    else 0

-- The mask and the bits that `Write` puts under it.
unfoldable pub written_part : ℕ → ℕ → ℕ → ℕ × ℕ
written_part off size val =
    if size == 1
    then (shl32 0xff (byte_shift off), shl32 (u8 val) (byte_shift off))
    else if size == 2
    then (shl32 0xffff (half_shift off), shl32 (u16 val) (half_shift off))
    else (0xffff_ffff, u32 val)

unfoldable pub syscon_events : ℕ → List SysconEvent
syscon_events value =
    if value == syscon_poweroff_value
    then SysconEvent.poweroff ∷ []
    else if value == syscon_reboot_value
    then SysconEvent.reboot ∷ []
    else []

unfoldable pub syscon_write : ℕ → ℕ → ℕ → ℕ → ℕ × List SysconEvent
syscon_write value addr size val =
    let off = sub64 addr syscon_base in
    let (mask, v) = written_part off size val in
    let value' = bit_or (and_not value mask) (bit_and v mask) in
    if leb 4 off then (value, []) else (value', syscon_events value')
