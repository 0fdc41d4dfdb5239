-- ===== src/Tests/Boot.antt =====
-- The theorems on the device tree of internal/boot.
use rvwasm.Base.{some, true, List, [], ◌∷◌, ◌≡◌, refl, arith}
use rvwasm.Base.Arrays.{length}
use rvwasm.Boot.Fdt.{
  new_builder, write, token, align, begin_node, end_node, prop, name_off, find_name, on_name,
  same_bytes, Event, apply, build,
}
use rvwasm.Boot.Fdt.Virt.{
  VirtDtbConfig, hex32, hex_from, hex_digit, dec, dec_loop, cpu_intc_phandle, syscon_phandle,
}
use rvwasm.Boot.Fdt.Tree.{tree_events}
use rvwasm.Boot.Fdt.Nested.{depth_after, depth_after-tree_events}
use rvwasm.Boot.Fdt.Reader.{read_events, IsText}
use rvwasm.Boot.Fdt.Build.{AreGood, IsGood, read_events-build}

-- The root with "reg" twice, the second time in a node "b".
abbrev tree : List Event
tree =
    Event.begun []
    ∷ Event.property (114 ∷ 101 ∷ 103 ∷ []) (1 ∷ 2 ∷ [])
    ∷ Event.begun (98 ∷ [])
    ∷ Event.property (114 ∷ 101 ∷ 103 ∷ []) []
    ∷ Event.ended
    ∷ Event.ended
    ∷ []

tree-AreGood : AreGood tree
unfolding AreGood IsGood IsText
tree-AreGood =
    let reg : IsText (114 ∷ 101 ∷ 103 ∷ []) = (omega arith, (omega arith, (omega arith, tt))) in
    (tt, ((reg, omega arith), ((omega arith, tt), ((reg, omega arith), (tt, (tt, tt))))))

tree-length : length (build tree new_builder).strings ≡ 4
unfolding build apply begin_node end_node prop name_off on_name find_name same_bytes align write
    token
tree-length = refl

read_events-build_example :
    read_events 6 (build tree new_builder).strings (build tree new_builder).struct_block ≡ tree
read_events-build_example = read_events-build tree tree-AreGood (let e = tree-length in omega arith)

abbrev config : VirtDtbConfig
config = record {
  mem_base = 0;
  mem_size = 0;
  timebase_hz = 0;
  boot_args = [];
  initrd_start = 0;
  initrd_end = 0;
  hart_count = 2;
  framebuffer = record {
    base = 0x8800_0000;
    size = 4096;
    width = 32;
    height = 32;
    stride = 128;
    format = [];
    enabled = true;
  };
}

depth_after-tree_events_example : depth_after 0 (tree_events config) ≡ some 0
depth_after-tree_events_example = depth_after-tree_events config

-- "88000000" and "254"
texts :
    (hex32 0x8800_0000 ≡ 56 ∷ 56 ∷ 48 ∷ 48 ∷ 48 ∷ 48 ∷ 48 ∷ 48 ∷ []) × (dec 254 ≡ 50 ∷ 53 ∷ 52 ∷ [])
unfolding hex32 hex_from hex_digit dec dec_loop
texts = (refl, refl)

-- The interrupt controller of hart 254 has the number of the power controller.
same_phandle : cpu_intc_phandle 254 ≡ syscon_phandle
unfolding cpu_intc_phandle
same_phandle = refl
