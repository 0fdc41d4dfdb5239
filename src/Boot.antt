-- ===== src/Boot.antt =====
-- internal/boot: what the firmware and the kernel are started with.
pub mod Fdt
pub mod Dynamic
