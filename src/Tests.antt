-- ===== src/Tests.antt =====
-- The theorems at concrete inputs.
mod Machine
mod Cpu
mod Bus
mod Devices
mod Virtio
mod Blocks
mod Boot
