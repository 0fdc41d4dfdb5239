-- ===== src/Cpu/Invariant.antt =====
-- The rule for invariants of a hart's privileged state, over the interpreter of internal/cpu. The
-- privileged state is what decides about privilege and protection: the mode, the CSRs and the PMP
-- cache. What a property has to meet is in the child Core.
pub mod Core
pub mod Exec
pub mod Step
pub use Core.*
pub use Exec.*
pub use Step.*
