-- ===== src/Ring/Defs.antt =====
-- A ring and its two operations: the write, and the loop that reads the last entries back.
use rvwasm.Base.{ℕ, zero, suc, ◌+◌, ◌-◌, ◌%◌, List, [], ◌∷◌, Option, none, some}
use rvwasm.Base.{ltb, ◌==◌, ◌||◌, if◌then◌else◌}
use rvwasm.Base.Arrays.{update}

-- `none` is an entry that the allocation left at its zero value.
pub record Ring (A : Type 0) : Type 0 where
  pub entries : ℕ → Option A
  pub pos : ℕ
  pub count : ℕ

module _ {A : Type 0} where
  abbrev pub empty_ring : Ring A
  empty_ring = record { entries = λ _. none; pos = 0; count = 0 }

  -- The write that ends `traceStep`, `traceTrap`, `traceCSR` and the bus logs.
  unfoldable pub push : ℕ → A → Ring A → Ring A
  push size a r = record {
    entries = update r.entries (r.pos % size) (some a);
    pos = r.pos + 1;
    count = if ltb r.count size then r.count + 1 else r.count;
  }

  -- The loop of the readers, `n` entries from `start` on.
  unfoldable pub read_from : ℕ → Ring A → ℕ → ℕ → List (Option A)
  read_from size r start zero = []
  read_from size r start (suc n) = r.entries (start % size) ∷ read_from size r (start + 1) n

  -- `TraceString`, `AccessTimeline`, `WatchpointHits`: a limit of 0 or less, or above the count, is
  -- the count.
  unfoldable pub recent : ℕ → Ring A → ℕ → List (Option A)
  recent size r limit =
      let n = if limit == 0 || ltb r.count limit then r.count else limit in
      read_from size r (r.pos - n) n
