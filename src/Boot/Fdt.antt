-- ===== src/Boot/Fdt.antt =====
-- internal/boot/fdt.go: the builder of a flattened device tree. A string is the list of its bytes.
pub mod Reader
pub mod Strings
pub mod Build
pub mod Virt
pub mod Tree
pub mod Nested
use rvwasm.Base.{
  ℕ, zero, suc, ◌+◌, ◌*◌, ◌/◌, ◌%◌, ◌-◌, ◌^◌, Bool, true, false, ◌&&◌, List, [], ◌∷◌, ◌++◌, Option,
  none, some, ◌==◌, if◌then◌else◌, u8, u32, ◌>>>◌,
}
use rvwasm.Base.Arrays.{length, zeros}

abbrev pub fdt_magic : ℕ
fdt_magic = 0xd00d_feed

abbrev pub fdt_begin_node : ℕ
fdt_begin_node = 1

abbrev pub fdt_end_node : ℕ
fdt_end_node = 2

abbrev pub fdt_prop : ℕ
fdt_prop = 3

abbrev pub fdt_end : ℕ
fdt_end = 9

-- `str_off` is a map from names, the latest entry first.
pub record FdtBuilder : Type 0 where
  pub struct_block : List ℕ
  pub strings : List ℕ
  pub str_off : List (List ℕ × ℕ)

abbrev pub new_builder : FdtBuilder
new_builder = record { struct_block = []; strings = []; str_off = [] }

unfoldable pub be32 : ℕ → List ℕ
be32 v = u8 (v >>> 24) ∷ u8 (v >>> 16) ∷ u8 (v >>> 8) ∷ u8 v ∷ []

unfoldable pub write : List ℕ → FdtBuilder → FdtBuilder
write bs b = record b { struct_block = b.struct_block ++ bs }

unfoldable pub token : ℕ → FdtBuilder → FdtBuilder
token t b = write (be32 t) b

-- The loop of `align`, with the rounds left: three are enough.
unfoldable pub pad : ℕ → List ℕ → List ℕ
pad zero bs = bs
pad (suc n) bs = let more = pad n (bs ++ 0 ∷ []) in if length bs % 4 == 0 then bs else more

unfoldable pub align : FdtBuilder → FdtBuilder
align b = record b { struct_block = pad 3 b.struct_block }

unfoldable pub begin_node : List ℕ → FdtBuilder → FdtBuilder
begin_node name b = align (write (0 ∷ []) (write name (token fdt_begin_node b)))

unfoldable pub end_node : FdtBuilder → FdtBuilder
end_node b = token fdt_end_node b

unfoldable pub same_bytes : List ℕ → List ℕ → Bool
same_bytes [] [] = true
same_bytes [] (y ∷ ys) = false
same_bytes (x ∷ xs) [] = false
same_bytes (x ∷ xs) (y ∷ ys) = x == y && same_bytes xs ys

-- The lookup `b.strOff[name]`.
unfoldable pub find_name : List ℕ → List (List ℕ × ℕ) → Option ℕ
find_name name [] = none
find_name name ((known, off) ∷ offs) =
    let rest = find_name name offs in if same_bytes known name then some off else rest

unfoldable pub on_name : List ℕ → FdtBuilder → Option ℕ → ℕ × FdtBuilder
on_name name b (some off) = (off, b)
on_name name b none =
    let off = u32 (length b.strings) in
    (off, record b { strings = b.strings ++ (name ++ 0 ∷ []); str_off = (name, off) ∷ b.str_off })

unfoldable pub name_off : List ℕ → FdtBuilder → ℕ × FdtBuilder
name_off name b = on_name name b (find_name name b.str_off)

unfoldable pub prop : List ℕ → List ℕ → FdtBuilder → FdtBuilder
prop name bytes b =
    let sized = write (be32 (u32 (length bytes))) (token fdt_prop b) in
    let (off, named) = name_off name sized in align (write bytes (write (be32 off) named))

-- What a device tree is made of, in order.
pub data Event : Type 0 where
  begun : List ℕ → Event
  ended : Event
  property : List ℕ → List ℕ → Event

-- The call of the builder for an event.
unfoldable pub apply : Event → FdtBuilder → FdtBuilder
apply (Event.begun name) b = begin_node name b
apply Event.ended b = end_node b
apply (Event.property name bytes) b = prop name bytes b

unfoldable pub build : List Event → FdtBuilder → FdtBuilder
build [] b = b
build (e ∷ es) b = build es (apply e b)

unfoldable pub words : List ℕ → List ℕ
words [] = []
words (v ∷ vs) = be32 v ++ words vs

-- The end of `BuildVirtDTBConfig`: the header, an empty reservation, and the two blocks.
unfoldable pub image : FdtBuilder → List ℕ
image b =
    let off_struct : ℕ = 56 in
    let off_strings = u32 (off_struct + length b.struct_block) in
    let total = u32 (off_strings + length b.strings) in
    words (
      fdt_magic
      ∷ total
      ∷ off_struct
      ∷ off_strings
      ∷ 40
      ∷ 17
      ∷ 16
      ∷ 0
      ∷ u32 (length b.strings)
      ∷ u32 (length b.struct_block)
      ∷ [])
    ++ zeros 16
    ++ b.struct_block
    ++ b.strings
