-- ===== src/Mem.antt =====
-- internal/mem: the bus between a hart, the memory and the devices.
pub mod Bytes
pub mod Bus
