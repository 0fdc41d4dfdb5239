-- ===== src/Cpu/Protect.antt =====
-- The locks of PMP entries and the cache of internal/cpu/pmp.go, over the steps of a hart.
pub mod Rule
pub mod Rights
pub mod Cache
pub mod Lock
