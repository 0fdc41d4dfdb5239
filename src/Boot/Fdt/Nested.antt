-- ===== src/Boot/Fdt/Nested.antt =====
-- How the tree of `BuildVirtDTBConfig` (internal/boot/fdt.go) opens and closes its nodes.
use Prim.Native.String.{String}
use rvwasm.Base.{
  ℕ, zero, suc, ◌+◌, ◌≡◌, refl, ap, ◌∙◌, arith, List, [], ◌∷◌, ◌++◌, Option, none, some,
}
use rvwasm.Boot.Fdt.{Event}
use rvwasm.Boot.Fdt.Virt.{
  VirtDtbConfig, FramebufferConfig, begun, prop_bytes, prop_empty, prop_chars, prop_str,
  prop_str_list, prop_u32, prop_u64, prop_u32_slice, prop_reg64, initrd_props, framebuffer_node,
  cpu_node, cpus_from, syscon_node, virtio_node,
}
use rvwasm.Boot.Fdt.Tree.{
  root_props, cpus_props, memory_node, soc_props, virtio_nodes, controller_nodes, tree_events,
}

-- The number of open nodes after some calls, from a number of open ones. Only an open node ends, and a
-- property is in a node.
unfoldable pub depth_after : ℕ → List Event → Option ℕ
depth_after d [] = some d
depth_after d (Event.begun name ∷ es) = depth_after (suc d) es
depth_after zero (Event.ended ∷ es) = none
depth_after (suc d) (Event.ended ∷ es) = depth_after d es
depth_after zero (Event.property name bytes ∷ es) = none
depth_after (suc d) (Event.property name bytes ∷ es) = depth_after (suc d) es

depth_after-++ :
    (xs ys : List Event) (d e : ℕ)
    → depth_after d xs ≡ some e
    → depth_after d (xs ++ ys) ≡ depth_after e ys
unfolding depth_after
depth_after-++ [] ys d e h =
    ap (λ (k : ℕ). depth_after k ys) (let same : d ≡ e = ground (arith, h) in same)
depth_after-++ (Event.begun name ∷ xs) ys d e h = depth_after-++ xs ys (suc d) e h
depth_after-++ (Event.ended ∷ xs) ys zero e h = absurd (ground (arith, h))
depth_after-++ (Event.ended ∷ xs) ys (suc d) e h = depth_after-++ xs ys d e h
depth_after-++ (Event.property name bytes ∷ xs) ys zero e h = absurd (ground (arith, h))
depth_after-++ (Event.property name bytes ∷ xs) ys (suc d) e h = depth_after-++ xs ys (suc d) e h

-- From `d` open nodes the calls lead to `e` open ones.
unfoldable Spans : ℕ → List Event → ℕ → Type 0
Spans d es e = depth_after d es ≡ some e

joins : (xs ys : List Event) (d e f : ℕ) → Spans d xs e → Spans e ys f → Spans d (xs ++ ys) f
unfolding Spans
joins xs ys d e f h k = depth_after-++ xs ys d e h ∙ k

root-Spans : (cfg : VirtDtbConfig) → Spans 0 (root_props cfg) 2
unfolding Spans depth_after root_props begun prop_bytes prop_chars prop_str prop_str_list prop_u32
root-Spans cfg = refl

initrd-Spans : (cfg : VirtDtbConfig) → Spans 2 (initrd_props cfg) 2
unfolding Spans depth_after initrd_props prop_u64 prop_bytes
initrd-Spans cfg = ground arith

framebuffer-Spans : (fb : FramebufferConfig) → Spans 2 (framebuffer_node fb) 2
unfolding Spans depth_after framebuffer_node prop_bytes prop_chars prop_str prop_u32 prop_reg64
framebuffer-Spans fb = ground arith

cpus_props-Spans : (cfg : VirtDtbConfig) → Spans 2 (Event.ended ∷ cpus_props cfg) 2
unfolding Spans depth_after cpus_props begun prop_bytes prop_u32
cpus_props-Spans cfg = refl

cpu_node-Spans : (hart : ℕ) → Spans 2 (cpu_node hart) 2
unfolding Spans depth_after cpu_node begun prop_bytes prop_empty prop_chars prop_str prop_u32
cpu_node-Spans hart = refl

no_calls-Spans : (d : ℕ) → Spans d [] d
unfolding Spans depth_after
no_calls-Spans d = refl

cpus-Spans : (hart n : ℕ) → Spans 2 (cpus_from hart n) 2
unfolding cpus_from
cpus-Spans hart zero = no_calls-Spans 2
cpus-Spans hart (suc n) =
    joins (cpu_node hart) (cpus_from (hart + 1) n) 2 2 2 (cpu_node-Spans hart)
      (cpus-Spans (hart + 1) n)

memory-Spans : (cfg : VirtDtbConfig) → Spans 2 (Event.ended ∷ memory_node cfg) 1
unfolding Spans depth_after memory_node begun prop_bytes prop_chars prop_str prop_reg64
memory-Spans cfg = refl

syscon-Spans :
    (name compatible : String) (value : ℕ) → Spans 1 (syscon_node name compatible value) 1
unfolding Spans depth_after syscon_node begun prop_bytes prop_chars prop_str prop_u32
syscon-Spans name compatible value = refl

soc-Spans : Spans 1 soc_props 2
unfolding Spans depth_after soc_props begun prop_bytes prop_empty prop_chars prop_str prop_str_list
    prop_u32 prop_reg64
soc-Spans = refl

virtio-Spans : Spans 2 virtio_nodes 2
unfolding Spans depth_after virtio_nodes virtio_node begun prop_bytes prop_empty prop_chars prop_str
    prop_u32 prop_reg64
virtio-Spans = refl

controllers-Spans : (cfg : VirtDtbConfig) → Spans 2 (controller_nodes cfg) 2
unfolding Spans depth_after controller_nodes begun prop_bytes prop_empty prop_str_list prop_u32
    prop_u32_slice prop_reg64
controllers-Spans cfg = refl

closing-Spans : Spans 2 (Event.ended ∷ Event.ended ∷ []) 0
unfolding Spans depth_after
closing-Spans = refl

tree_events-Spans : (cfg : VirtDtbConfig) → Spans 0 (tree_events cfg) 0
unfolding tree_events
tree_events-Spans cfg =
    let chosen = joins _ _ _ _ _ (root-Spans cfg) (initrd-Spans cfg) in
    let shown = joins _ _ _ _ _ chosen (framebuffer-Spans cfg.framebuffer) in
    let cpus = joins _ _ _ _ _ shown (cpus_props-Spans cfg) in
    let harts = joins _ _ _ _ _ cpus (cpus-Spans 0 cfg.hart_count) in
    let memory = joins _ _ _ _ _ harts (memory-Spans cfg) in
    let reboot = joins _ _ _ _ _ memory (syscon-Spans "reboot" "syscon-reboot" 0x7777) in
    let poweroff = joins _ _ _ _ _ reboot (syscon-Spans "poweroff" "syscon-poweroff" 0x5555) in
    let soc = joins _ _ _ _ _ poweroff soc-Spans in
    let virtio = joins _ _ _ _ _ soc virtio-Spans in
    let controllers = joins _ _ _ _ _ virtio (controllers-Spans cfg) in
    joins _ _ _ _ _ controllers closing-Spans

-- For any configuration, with or without a framebuffer and an initial ramdisk and with any number
-- of harts, the device tree closes every node that it opens and no other, and puts every property
-- in an open node.
pub depth_after-tree_events : (cfg : VirtDtbConfig) → depth_after 0 (tree_events cfg) ≡ some 0
unfolding Spans
depth_after-tree_events cfg = tree_events-Spans cfg
