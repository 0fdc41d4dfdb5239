-- ===== src/Virtio.antt =====
-- internal/dev/virtio_*.go: devices that share queues with the guest through its memory. The code
-- repeats the registers, the queue and its descriptor chains in each file; they are one model here,
-- with what differs between the devices as a parameter.
pub mod Guest
pub mod Chain
pub mod Transport
pub mod Registers
pub mod Queue
pub mod Block
pub mod Rng
pub mod Console
pub mod Net
pub mod Input
