-- ===== src/Cpu/Exec.antt =====
-- internal/cpu/exec.go, exec_m.go, exec_amo.go and exec_system.go: the 32-bit instructions.
mod Memory
mod Arith
mod Amo
mod System
unfoldable pub use Memory.*
unfoldable pub use Arith.*
unfoldable pub use Amo.*
unfoldable pub use System.*
