-- ===== src/Cpu/Exec/Memory.antt =====
-- `load` and `store` of internal/cpu/exec.go.
use rvwasm.Base.{ℕ, ◌*◌, ◌%◌, Bool, not, ◌&&◌, ◌==◌, if◌then◌else◌}
use rvwasm.Cpu.Hart.{Hart, Platform, set_x}
use rvwasm.Cpu.Access.{AccessKind, Result, ok, err}
use rvwasm.Cpu.Mmu.{read_virtual, write_virtual}
use rvwasm.Cpu.Alu.{sext}
use rvwasm.Cpu.Trap.{
  raise_exception, raise_access_error, exc_load_misaligned, exc_store_misaligned,
  exc_illegal_instruction,
}

abbrev pub is_misaligned : ℕ → ℕ → Bool
is_misaligned addr size = not (size == 1) && not (addr % size == 0)

module _ {S : Type 0} where
  -- `raiseException(ExcIllegalInstruction, uint64(inst))`
  unfoldable pub illegal : ℕ → Hart S → Hart S
  illegal inst h = raise_exception h exc_illegal_instruction inst

  -- The ends of a load and of a store: the value, 0 after a trap, and the hart.
  unfoldable pub finish_load : ℕ → ℕ → Bool → Result ℕ → Hart S → ℕ × Hart S
  finish_load addr size signed (ok v) h = ((if signed then sext v (size * 8) else v), h)
  finish_load addr size signed (err e) h = (0, raise_access_error h AccessKind.load addr e)

  unfoldable pub finish_store : ℕ → Result (Unit {0}) → Hart S → Hart S
  finish_store addr (ok _) h = h
  finish_store addr (err e) h = raise_access_error h AccessKind.store addr e

module _ {S : Type 0} (p : Platform S) where
  unfoldable pub load : Hart S → ℕ → ℕ → Bool → ℕ × Hart S
  load h addr size signed =
      if is_misaligned addr size
      then (0, raise_exception h exc_load_misaligned addr)
      else (let (r, h') = read_virtual p addr size AccessKind.load h in
          finish_load addr size signed r h')

  unfoldable pub store : Hart S → ℕ → ℕ → ℕ → Hart S
  store h addr size val =
      if is_misaligned addr size
      then raise_exception h exc_store_misaligned addr
      else (let (r, h') = write_virtual p addr size val h in finish_store addr r h')

  -- A load into a register, which a trap keeps as it was.
  unfoldable pub load_into : Hart S → ℕ → ℕ → ℕ → Bool → Hart S
  load_into h rd addr size signed =
      let (v, h') = load h addr size signed in if h'.trap_raised then h' else set_x h' rd v
