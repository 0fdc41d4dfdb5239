-- ===== src/Ring.antt =====
-- The fixed-size ring logs of internal/cpu/trace.go and internal/mem/bus.go. Each is a slice that is
-- allocated at its full size on the first write, a position that only grows, and a count that
-- stops at the size. An entry is written at the position modulo the size. The text that the
-- source formats into an entry is a value here.
mod Defs
pub mod Recent
pub use Defs.{Ring}
unfoldable pub use Defs.{empty_ring, push, read_from, recent}
pub use Recent.*
