-- ===== src/Cpu.antt =====
-- internal/cpu: one RV64 hart. The state is in Cpu/Hart.antt and the functions of each source file in
-- the child named for it.
pub mod Addr
pub mod Access
pub mod Hart
pub mod Pmp
pub mod Csr
pub mod Trap
pub mod Mmu
pub mod Alu
pub mod Exec
pub mod Base32
pub mod Compressed
pub mod Step
pub mod Status
pub mod Legal
pub mod Invariant
pub mod Protect
