-- ===== src/Cpu/Legal.antt =====
-- The privilege mode of a hart and the field MPP of mstatus (internal/cpu), and which values they take.
pub mod State
pub mod Csr
pub mod Step
pub use State.*
pub use Step.*
