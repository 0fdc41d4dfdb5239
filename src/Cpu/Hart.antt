-- ===== src/Cpu/Hart.antt =====
-- The state of a hart (internal/cpu/cpu.go), what it is given from outside, and the diagnostics that
-- internal/cpu/trace.go keeps beside it.
mod State
mod Trace
pub use State.*
unfoldable pub use Trace.*
use rvwasm.Base.{ℕ}
use rvwasm.Base.Arrays.{update}

module _ {S : Type 0} where
  -- `h.X[rd] = v`
  abbrev pub set_x : Hart S → ℕ → ℕ → Hart S
  set_x h rd v = record h { x = update h.x rd v }

  -- `h.CSR[addr] = v`
  abbrev pub set_csr : Hart S → ℕ → ℕ → Hart S
  set_csr h addr v = record h { csr = update h.csr addr v }

  abbrev pub set_pc : Hart S → ℕ → Hart S
  set_pc h pc = record h { pc = pc }
