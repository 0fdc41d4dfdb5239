-- ===== src/Boot/Fdt/Virt.antt =====
-- `BuildVirtDTBConfig` in internal/boot/fdt.go: the device tree of the machine as the calls of the builder.
use Prim.Native.Char.{code}
use Prim.Native.String.{String}
use rvwasm.Base.{
  ℕ, zero, suc, ◌+◌, ◌*◌, ◌/◌, ◌%◌, ◌^◌, Bool, false, not, ◌&&◌, ◌||◌, List, [], ◌∷◌, ◌++◌, ◌==◌,
  ltb, if◌then◌else◌, u32, ◌>>>◌,
}
use rvwasm.Boot.Fdt.{Event, be32, words}

-- The bytes of a text, which is ASCII.
unfoldable pub text : String → List ℕ
text String.[] = []
text (String.◌∷◌ c s) = code c ∷ text s

pub record FramebufferConfig : Type 0 where
  pub base : ℕ
  pub size : ℕ
  pub width : ℕ
  pub height : ℕ
  pub stride : ℕ
  pub format : List ℕ
  pub enabled : Bool

pub record VirtDtbConfig : Type 0 where
  pub mem_base : ℕ
  pub mem_size : ℕ
  pub timebase_hz : ℕ
  pub boot_args : List ℕ
  pub initrd_start : ℕ
  pub initrd_end : ℕ
  pub hart_count : ℕ
  pub framebuffer : FramebufferConfig

abbrev pub syscon_phandle : ℕ
syscon_phandle = 0x100

abbrev pub plic_phandle : ℕ
plic_phandle = 2

unfoldable pub be64 : ℕ → List ℕ
be64 v = be32 (v >>> 32) ++ be32 v

unfoldable pub begun : String → Event
begun name = Event.begun (text name)

unfoldable pub prop_bytes : String → List ℕ → Event
prop_bytes name bytes = Event.property (text name) bytes

unfoldable pub prop_empty : String → Event
prop_empty name = prop_bytes name []

-- `propStr` of bytes, and of a text.
unfoldable pub prop_chars : String → List ℕ → Event
prop_chars name s = prop_bytes name (s ++ 0 ∷ [])

unfoldable pub prop_str : String → String → Event
prop_str name s = prop_chars name (text s)

unfoldable pub joined : List String → List ℕ
joined [] = []
joined (s ∷ ss) = text s ++ (0 ∷ joined ss)

unfoldable pub prop_str_list : String → List String → Event
prop_str_list name ss = prop_bytes name (joined ss)

unfoldable pub prop_u32 : String → ℕ → Event
prop_u32 name v = prop_bytes name (be32 v)

unfoldable pub prop_u64 : String → ℕ → Event
prop_u64 name v = prop_bytes name (be64 v)

unfoldable pub prop_u32_slice : String → List ℕ → Event
prop_u32_slice name vs = prop_bytes name (words vs)

unfoldable pub prop_reg64 : String → ℕ → ℕ → Event
prop_reg64 name base size = prop_bytes name (be64 base ++ be64 size)

unfoldable pub cpu_intc_phandle : ℕ → ℕ
cpu_intc_phandle hart = if hart == 0 then 1 else u32 (hart + 2)

-- The loop of `clintInterruptsExtended` and `plicInterruptsExtended` from a hart on, with the two
-- interrupts of a hart.
unfoldable pub interrupts_from : ℕ → ℕ → ℕ → ℕ → List ℕ
interrupts_from first second hart zero = []
interrupts_from first second hart (suc n) =
    let ph = cpu_intc_phandle hart in
    ph ∷ first ∷ ph ∷ second ∷ interrupts_from first second (hart + 1) n

unfoldable pub clint_interrupts_extended : ℕ → List ℕ
clint_interrupts_extended harts = interrupts_from 3 7 0 harts

unfoldable pub plic_interrupts_extended : ℕ → List ℕ
plic_interrupts_extended harts = interrupts_from 11 9 0 harts

unfoldable pub hex_digit : ℕ → ℕ
hex_digit n = if ltb n 10 then 48 + n else 87 + n

-- The loop of `hex32` from digit `i` down.
unfoldable pub hex_from : ℕ → Bool → ℕ → List ℕ
hex_from zero started v = hex_digit (v % 16) ∷ []
hex_from (suc i) started v =
    let n = v / 16 ^ suc i % 16 in
    let shown = started || not (n == 0) in
    let rest = hex_from i shown v in if shown then hex_digit n ∷ rest else rest

unfoldable pub hex32 : ℕ → List ℕ
hex32 v = hex_from 7 false v

-- The loop of `dec`: its buffer has 20 places.
unfoldable pub dec_loop : ℕ → ℕ → List ℕ → List ℕ
dec_loop zero v digits = digits
dec_loop (suc n) v digits =
    let rest = dec_loop n (v / 10) ((48 + v % 10) ∷ digits) in if v == 0 then digits else rest

unfoldable pub dec : ℕ → List ℕ
dec v = if v == 0 then 48 ∷ [] else dec_loop 20 v []

unfoldable pub or_text : List ℕ → String → List ℕ
or_text [] s = text s
or_text (c ∷ cs) s = c ∷ cs

-- The defaults of the first lines.
unfoldable pub with_defaults : VirtDtbConfig → VirtDtbConfig
with_defaults cfg = record cfg {
  mem_base = if cfg.mem_base == 0 then 0x8000_0000 else cfg.mem_base;
  mem_size = if cfg.mem_size == 0 then 128 * 1024 * 1024 else cfg.mem_size;
  timebase_hz = if cfg.timebase_hz == 0 then 10000000 else cfg.timebase_hz;
  boot_args = or_text cfg.boot_args "console=ttyS0 earlycon=sbi root=/dev/vda rw";
  hart_count = if cfg.hart_count == 0 then 1 else cfg.hart_count;
}

unfoldable pub initrd_props : VirtDtbConfig → List Event
initrd_props cfg =
    if not (cfg.initrd_start == 0) && ltb cfg.initrd_start cfg.initrd_end
    then prop_u64 "linux,initrd-start" cfg.initrd_start
      ∷ prop_u64 "linux,initrd-end" cfg.initrd_end
      ∷ []
    else []

unfoldable pub framebuffer_node : FramebufferConfig → List Event
framebuffer_node fb =
    if fb.enabled && not (fb.base == 0) && not (fb.size == 0)
    then (Event.begun (text "framebuffer@" ++ hex32 (u32 fb.base))
        ∷ prop_str "compatible" "simple-framebuffer"
        ∷ prop_str "status" "okay"
        ∷ prop_reg64 "reg" fb.base fb.size
        ∷ prop_u32 "width" fb.width
        ∷ prop_u32 "height" fb.height
        ∷ prop_u32 "stride" fb.stride
        ∷ prop_chars "format" (or_text fb.format "a8r8g8b8")
        ∷ Event.ended
        ∷ [])
    else []

unfoldable pub cpu_node : ℕ → List Event
cpu_node hart =
    Event.begun (text "cpu@" ++ dec hart)
    ∷ prop_str "device_type" "cpu"
    ∷ prop_u32 "reg" (u32 hart)
    ∷ prop_str "status" "okay"
    ∷ prop_str "compatible" "riscv"
    ∷ prop_str "riscv,isa" "rv64imac_zicsr_zifencei"
    ∷ prop_str "mmu-type" "riscv,sv39"
    ∷ begun "interrupt-controller"
    ∷ prop_empty "interrupt-controller"
    ∷ prop_u32 "#interrupt-cells" 1
    ∷ prop_str "compatible" "riscv,cpu-intc"
    ∷ prop_u32 "phandle" (cpu_intc_phandle hart)
    ∷ Event.ended
    ∷ Event.ended
    ∷ []

unfoldable pub cpus_from : ℕ → ℕ → List Event
cpus_from hart zero = []
cpus_from hart (suc n) = cpu_node hart ++ cpus_from (hart + 1) n

unfoldable pub syscon_node : String → String → ℕ → List Event
syscon_node name compatible value =
    begun name
    ∷ prop_str "compatible" compatible
    ∷ prop_u32 "regmap" syscon_phandle
    ∷ prop_u32 "offset" 0
    ∷ prop_u32 "mask" 0xffff_ffff
    ∷ prop_u32 "value" value
    ∷ Event.ended
    ∷ []

-- A virtio device, with what follows its common properties.
unfoldable pub virtio_node : String → ℕ → ℕ → List Event → List Event
virtio_node name base irq more =
    begun name
    ∷ prop_str "compatible" "virtio,mmio"
    ∷ prop_reg64 "reg" base 0x200
    ∷ prop_u32 "interrupt-parent" plic_phandle
    ∷ prop_u32 "interrupts" irq
    ∷ prop_empty "dma-coherent"
    ∷ more
