-- ===== src/Mem/Bus/Memory.antt =====
-- Reads and writes of memory through the bus (internal/mem/bus.go), with its logs and watchpoints.
use rvwasm.Base.{
  ℕ, ◌+◌, ◌-◌, ◌%◌, ◌^◌, ◌≤◌, ◌⊎◌, Bool, true, false, ◌≡◌, refl, sym, ap, ◌∙◌, if-keeps, ap₂,
  Option, none, some, arith, ◌==◌, if◌then◌else◌,
}
use rvwasm.Mem.Bytes.{put_le, get_le-put_le, get_le-agree, put_le-outside}
use rvwasm.Mem.Bus.{
  Bus, Devices, Watchpoint, first_watchpoint, note_watchpoint, record_watchpoint_hit,
  check_read_watchpoint, check_write_watchpoint, in_dram, log_dram, note_access,
  record_access_event, value_at, is_size, read, write, dram_name,
}

module _ {D : Type 0} where
  abbrev SameMemory : Bus D → Bus D → Type 0
  SameMemory b t = (t.dram_base ≡ b.dram_base) × (t.dram_len ≡ b.dram_len) × (t.dram ≡ b.dram)

  note_watchpoint-SameMemory :
      (b : Bus D) (is_write : Bool) (addr size : ℕ) (w : Option Watchpoint)
      → SameMemory b (note_watchpoint b is_write addr size w)
  unfolding note_watchpoint record_watchpoint_hit
  note_watchpoint-SameMemory b is_write addr size none = (refl, refl, refl)
  note_watchpoint-SameMemory b is_write addr size (some w) = (refl, refl, refl)

  check_read-SameMemory :
      (b : Bus D) (addr size : ℕ) → SameMemory b (check_read_watchpoint b addr size)
  unfolding check_read_watchpoint
  check_read-SameMemory b addr size =
      if-keeps (SameMemory b) (size == 0) (refl, refl, refl)
        (note_watchpoint-SameMemory b false addr size
          (first_watchpoint addr size b.read_watchpoints))

  check_write-SameMemory :
      (b : Bus D) (addr size : ℕ) → SameMemory b (check_write_watchpoint b addr size)
  unfolding check_write_watchpoint
  check_write-SameMemory b addr size =
      if-keeps (SameMemory b) (size == 0) (refl, refl, refl)
        (note_watchpoint-SameMemory b true addr size
          (first_watchpoint addr size b.write_watchpoints))

  log_dram-SameMemory :
      (b : Bus D) (addr size : ℕ) (is_write : Bool) (v : ℕ)
      → SameMemory b (log_dram b addr size is_write v)
  unfolding log_dram record_access_event note_access
  log_dram-SameMemory b addr size is_write v =
      let logged =
        record_access_event (note_access b dram_name is_write size) dram_name addr size is_write
          v in
      if-keeps (SameMemory b) b.trace_dram_access {x = logged} {y = b}
        (if-keeps (SameMemory b) (size == 0) (refl, refl, refl) (refl, refl, refl))
        (refl, refl, refl)

  in_dram-SameMemory :
      (b t : Bus D) (addr size : ℕ) → SameMemory b t → in_dram t addr size ≡ in_dram b addr size
  unfolding in_dram
  in_dram-SameMemory b t addr size q = rw (q.0, q.1) refl

  value_at-SameMemory :
      (b t : Bus D) (addr size : ℕ) → SameMemory b t → value_at t addr size ≡ value_at b addr size
  value_at-SameMemory b t addr size q = rw (q.0, q.2) refl

  above_base : (b : Bus D) (addr size : ℕ) → in_dram b addr size ≡ true → b.dram_base ≤ addr
  unfolding in_dram
  above_base b addr size e = ground (arith, e)

module _ {D : Type 0} (ops : Devices D) where
  -- A read of memory answers the bytes there.
  pub read-memory :
      (b : Bus D) (addr size : ℕ)
      → in_dram b addr size ≡ true
      → (read ops b addr size).value ≡ (if is_size size then some (value_at b addr size) else none)
  unfolding read
  read-memory b addr size e =
      let same = check_read-SameMemory b addr size in
      let seen = check_read_watchpoint b addr size in
      let there = in_dram-SameMemory b seen addr size same ∙ e in
      ground (arith, there, value_at-SameMemory b seen addr size same)

  -- What a write to memory leaves there.
  pub write-memory :
      (b : Bus D) (addr size val : ℕ)
      → in_dram b addr size ≡ true
      → is_size size ≡ true
      → let t = (write ops b addr size val).after in
        (t.dram_base ≡ b.dram_base)
        × (t.dram_len ≡ b.dram_len)
        × (t.dram ≡ put_le b.dram (addr - b.dram_base) size val)
  unfolding write
  write-memory b addr size val e s =
      let same = check_write-SameMemory b addr size in
      let seen = check_write_watchpoint b addr size in
      let there = in_dram-SameMemory b seen addr size same ∙ e in
      let stored = record seen { dram = put_le seen.dram (addr - seen.dram_base) size val } in
      let logged = log_dram-SameMemory stored addr size true val in
      let new : stored.dram ≡ put_le b.dram (addr - b.dram_base) size val =
        ap₂ (λ (m : ℕ → ℕ) (base : ℕ). put_le m (addr - base) size val) same.2 same.0 in
      rw (there, s) (logged.0 ∙ same.0, logged.1 ∙ same.1, logged.2 ∙ new)

  -- A write of 1, 2, 4 or 8 bytes that the bus takes as within memory, and a read of as many bytes
  -- at that address, answers the value cut to that size, with any watchpoints and logs.
  pub read-write :
      (b : Bus D) (addr size val : ℕ)
      → in_dram b addr size ≡ true
      → is_size size ≡ true
      → (read ops (write ops b addr size val).after addr size).value ≡ some (val % 256 ^ size)
  read-write b addr size val e s =
      let t = (write ops b addr size val).after in
      let w = write-memory b addr size val e s in
      let there : in_dram t addr size ≡ true = unfold in_dram in rw (w.0, w.1) e in
      let got : value_at t addr size ≡ val % 256 ^ size =
        rw (w.0, w.2) (get_le-put_le b.dram (addr - b.dram_base) size val) in
      read-memory t addr size there ∙ rw (s, got) refl

  -- After a write within memory, a read within memory of bytes that the write does not reach
  -- answers what it answered before.
  pub read-write_apart :
      (b : Bus D) (addr size val at n : ℕ)
      → in_dram b addr size ≡ true
      → is_size size ≡ true
      → in_dram b at n ≡ true
      → is_size n ≡ true
      → (at + n ≤ addr) ⊎ (addr + size ≤ at)
      → (read ops (write ops b addr size val).after at n).value ≡ (read ops b at n).value
  read-write_apart b addr size val at n e s f m apart =
      let t = (write ops b addr size val).after in
      let w = write-memory b addr size val e s in
      let there : in_dram t at n ≡ true = unfold in_dram in rw (w.0, w.1) f in
      let off = addr - b.dram_base in
      let above = above_base b addr size e in
      let above' = above_base b at n f in
      let got : value_at t at n ≡ value_at b at n =
        rw (w.0, w.2)
          (get_le-agree (put_le b.dram off size val) b.dram (at - b.dram_base) n
            (λ a p q. put_le-outside b.dram off size val a (omega arith))) in
      read-memory t at n there
      ∙ ap (λ (v : ℕ). if is_size n then some v else none) got
      ∙ sym (read-memory b at n f)
