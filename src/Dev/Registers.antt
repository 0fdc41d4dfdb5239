-- ===== src/Dev/Registers.antt =====
-- Reads and writes of a part of a register (`readLE` and `writeLE` of internal/dev/clint.go, and
-- `partialRead32` and `partialWrite32` of internal/dev/plic.go).
use rvwasm.Base.{ℕ, ◌+◌, ◌-◌, ◌/◌, ◌%◌, ◌^◌, ltb, leb, ◌||◌, not, if◌then◌else◌}
use rvwasm.Mem.Bytes.{get_le, put_le}
use rvwasm.Mem.Bus.{is_size}

-- The bytes of a number, as `PutUint32` and `PutUint64` lay them out.
abbrev pub byte_of : ℕ → ℕ → ℕ
byte_of v i = v / 256 ^ i % 256

-- `len` is the length of the buffer, which holds the register.
unfoldable pub read_le : ℕ → ℕ → ℕ → ℕ → ℕ
read_le len v off size =
    if ltb len (off + size) || not (is_size size) then 0 else get_le (byte_of v) off size

unfoldable pub write_le : ℕ → ℕ → ℕ → ℕ → ℕ → ℕ
write_le len old off size val =
    if ltb len (off + size) || not (is_size size)
    then old
    else get_le (put_le (byte_of old) off size val) 0 len

unfoldable pub partial_read32 : ℕ → ℕ → ℕ → ℕ
partial_read32 v off size =
    if leb 4 off then 0 else get_le (byte_of v) off (if ltb 4 (off + size) then 4 - off else size)

unfoldable pub partial_write32 : ℕ → ℕ → ℕ → ℕ → ℕ
partial_write32 old off size val =
    if leb 4 off
    then old
    else get_le (put_le (byte_of old) off (if ltb 4 (off + size) then 4 - off else size) val) 0 4

-- `partialRead64` of internal/dev/virtio_blk.go
unfoldable pub partial_read64 : ℕ → ℕ → ℕ → ℕ
partial_read64 v off size =
    if leb 8 off then 0 else get_le (byte_of v) off (if ltb 8 (off + size) then 8 - off else size)
