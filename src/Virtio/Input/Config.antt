-- ===== src/Virtio/Input/Config.antt =====
-- The configuration space of the keyboard (`readConfig`, `configData` and `setBit` in
-- internal/dev/virtio_input.go).
use rvwasm.Base.{
  ℕ, zero, suc, ◌+◌, ◌-◌, ◌/◌, ◌%◌, ◌^◌, List, [], ◌∷◌, ltb, leb, ◌==◌, if◌then◌else◌, bit_or, u8,
  sub64,
}
use rvwasm.Base.Arrays.{length, take, zeros}
use rvwasm.Mem.Bytes.{get_le}
use rvwasm.Boot.Fdt.Virt.{text}
use rvwasm.Virtio.Registers.{register_read}
use rvwasm.Virtio.Queue.{Device}
use rvwasm.Virtio.Input.{Input, input_kind, virtio_input_base, ev_key, ev_rel}

-- A byte of a list, or 0 after its end.
unfoldable pub byte_at : List ℕ → ℕ → ℕ
byte_at [] i = 0
byte_at (b ∷ bs) zero = b
byte_at (b ∷ bs) (suc i) = byte_at bs i

-- `buf[i] |= mask`, if there is such a byte.
unfoldable pub or_at : List ℕ → ℕ → ℕ → List ℕ
or_at [] i mask = []
or_at (b ∷ bs) zero mask = bit_or b mask ∷ bs
or_at (b ∷ bs) (suc i) mask = b ∷ or_at bs i mask

unfoldable pub set_bit : List ℕ → ℕ → List ℕ
set_bit buf bit = or_at buf (bit / 8) (2 ^ (bit % 8))

unfoldable pub set_bits : List ℕ → List ℕ → List ℕ
set_bits buf [] = buf
set_bits buf (c ∷ cs) = set_bits (set_bit buf c) cs

-- The loop over `n` codes from one on.
unfoldable pub set_range : List ℕ → ℕ → ℕ → List ℕ
set_range buf code zero = buf
set_range buf code (suc n) = set_range (set_bit buf code) (code + 1) n

unfoldable pub key_bits : List ℕ
key_bits =
    set_range (set_range (set_bits (zeros 96) (1 ∷ 14 ∷ 28 ∷ 57 ∷ 103 ∷ 105 ∷ 106 ∷ 108 ∷ [])) 2 10)
      16 35

unfoldable pub event_bits : ℕ → List ℕ
event_bits subsel =
    if subsel == ev_key
    then key_bits
    else if subsel == ev_rel
    then set_bits (zeros 1) (0 ∷ 1 ∷ [])
    else set_bits (zeros 1) (ev_key ∷ ev_rel ∷ [])

unfoldable pub config_data : Input → List ℕ
config_data v =
    if v.cfg_select == 0x01
    then text "rvwasm virtio keyboard"
    else if v.cfg_select == 0x02
    then text "rvwasm-input0"
    else if v.cfg_select == 0x03
    then 0x06 ∷ 0 ∷ 0x57 ∷ 0x52 ∷ 0x01 ∷ 0 ∷ 0x01 ∷ 0 ∷ []
    else if v.cfg_select == 0x10
    then 0 ∷ []
    else if v.cfg_select == 0x11
    then event_bits v.cfg_subsel
    else []

-- The 128 bytes of the space.
unfoldable pub config_byte : Input → List ℕ → ℕ → ℕ
config_byte v bytes i =
    if i == 0
    then v.cfg_select
    else if i == 1
    then v.cfg_subsel
    else if i == 2
    then u8 (length bytes)
    else if ltb i 8
    then 0
    else byte_at bytes (i - 8)

unfoldable pub read_config : Input → ℕ → ℕ → ℕ
read_config v off size =
    if leb 128 off
    then 0
    else get_le (config_byte v (take 0xff (config_data v))) off
        (if ltb 128 (off + size) then 128 - off else size)

module _ {M : Type 0} where
  unfoldable pub input_read : Device M Input → ℕ → ℕ → ℕ
  input_read d addr size =
      let off = sub64 addr virtio_input_base in
      if ltb off 0x100
      then register_read input_kind d.regs off size
      else if ltb off 0x180
      then read_config d.own (off - 0x100) size
      else 0
