-- ===== src/Boot/Fdt/Tree.antt =====
-- `BuildVirtDTBConfig` in internal/boot/fdt.go, put together of its nodes.
use rvwasm.Base.{ℕ, List, [], ◌∷◌, ◌++◌}
use rvwasm.Boot.Fdt.{Event, new_builder, token, build, image, fdt_end}
use rvwasm.Boot.Fdt.Virt.{
  VirtDtbConfig, with_defaults, begun, prop_bytes, prop_empty, prop_chars, prop_str, prop_str_list,
  prop_u32, prop_u32_slice, prop_reg64, initrd_props, framebuffer_node, cpus_from, syscon_node,
  virtio_node, syscon_phandle, plic_phandle, clint_interrupts_extended, plic_interrupts_extended,
}

-- Up to the properties of "chosen".
unfoldable pub root_props : VirtDtbConfig → List Event
root_props cfg =
    Event.begun []
    ∷ prop_str "model" "rvwasm"
    ∷ prop_str_list "compatible" ("riscv-virtio" ∷ "riscv-virtio,qemu" ∷ [])
    ∷ prop_u32 "#address-cells" 2
    ∷ prop_u32 "#size-cells" 2
    ∷ begun "aliases"
    ∷ prop_str "serial0" "/soc/serial@10000000"
    ∷ Event.ended
    ∷ begun "chosen"
    ∷ prop_str "stdout-path" "/soc/serial@10000000"
    ∷ prop_chars "bootargs" cfg.boot_args
    ∷ []

unfoldable pub cpus_props : VirtDtbConfig → List Event
cpus_props cfg =
    begun "cpus"
    ∷ prop_u32 "#address-cells" 1
    ∷ prop_u32 "#size-cells" 0
    ∷ prop_u32 "timebase-frequency" cfg.timebase_hz
    ∷ []

unfoldable pub memory_node : VirtDtbConfig → List Event
memory_node cfg =
    begun "memory@80000000"
    ∷ prop_str "device_type" "memory"
    ∷ prop_reg64 "reg" cfg.mem_base cfg.mem_size
    ∷ Event.ended
    ∷ []

unfoldable pub soc_props : List Event
soc_props =
    begun "soc"
    ∷ prop_u32 "#address-cells" 2
    ∷ prop_u32 "#size-cells" 2
    ∷ prop_empty "ranges"
    ∷ prop_str "compatible" "simple-bus"
    ∷ begun "test@100000"
    ∷ prop_str_list "compatible" ("sifive,test1" ∷ "sifive,test0" ∷ "syscon" ∷ [])
    ∷ prop_reg64 "reg" 0x10_0000 0x1000
    ∷ prop_u32 "phandle" syscon_phandle
    ∷ Event.ended
    ∷ begun "serial@10000000"
    ∷ prop_str "compatible" "ns16550a"
    ∷ prop_reg64 "reg" 0x1000_0000 0x100
    ∷ prop_u32 "clock-frequency" 3686400
    ∷ prop_u32 "current-speed" 115200
    ∷ prop_u32 "interrupt-parent" plic_phandle
    ∷ prop_u32 "interrupts" 10
    ∷ Event.ended
    ∷ []

unfoldable pub virtio_nodes : List Event
virtio_nodes =
    virtio_node "virtio_mmio@10001000" 0x1000_1000 1 (Event.ended ∷ [])
    ++ virtio_node "virtio_mmio@10002000" 0x1000_2000 2 (Event.ended ∷ [])
    ++ virtio_node "virtio_mmio@10003000" 0x1000_3000 3 (
        prop_bytes "local-mac-address" (0x02 ∷ 0x72 ∷ 0x76 ∷ 0x77 ∷ 0x00 ∷ 0x01 ∷ [])
        ∷ Event.ended
        ∷ [])
    ++ virtio_node "virtio_mmio@10004000" 0x1000_4000 4 (Event.ended ∷ [])
    ++ virtio_node "virtio_mmio@10005000" 0x1000_5000 5 (Event.ended ∷ [])
    ++ virtio_node "virtio_mmio@10006000" 0x1000_6000 6 (Event.ended ∷ [])

-- The interrupt controllers.
unfoldable pub controller_nodes : VirtDtbConfig → List Event
controller_nodes cfg =
    begun "clint@2000000"
    ∷ prop_str_list "compatible" ("sifive,clint0" ∷ "riscv,clint0" ∷ [])
    ∷ prop_reg64 "reg" 0x0200_0000 0x1_0000
    ∷ prop_u32_slice "interrupts-extended" (clint_interrupts_extended cfg.hart_count)
    ∷ Event.ended
    ∷ begun "plic@c000000"
    ∷ prop_str_list "compatible" ("sifive,plic-1.0.0" ∷ "riscv,plic0" ∷ [])
    ∷ prop_u32 "#interrupt-cells" 1
    ∷ prop_empty "interrupt-controller"
    ∷ prop_reg64 "reg" 0x0c00_0000 0x400_0000
    ∷ prop_u32_slice "interrupts-extended" (plic_interrupts_extended cfg.hart_count)
    ∷ prop_u32 "riscv,ndev" 63
    ∷ prop_u32 "phandle" plic_phandle
    ∷ Event.ended
    ∷ []

-- The calls of the builder, for a configuration whose defaults are filled in.
unfoldable pub tree_events : VirtDtbConfig → List Event
tree_events cfg =
    root_props cfg
    ++ initrd_props cfg
    ++ framebuffer_node cfg.framebuffer
    ++ (Event.ended ∷ cpus_props cfg)
    ++ cpus_from 0 cfg.hart_count
    ++ (Event.ended ∷ memory_node cfg)
    ++ syscon_node "reboot" "syscon-reboot" 0x7777
    ++ syscon_node "poweroff" "syscon-poweroff" 0x5555
    ++ soc_props
    ++ virtio_nodes
    ++ controller_nodes cfg
    ++ (Event.ended ∷ Event.ended ∷ [])

unfoldable pub build_virt_dtb_config : VirtDtbConfig → List ℕ
build_virt_dtb_config cfg =
    image (token fdt_end (build (tree_events (with_defaults cfg)) new_builder))
