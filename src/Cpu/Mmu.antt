-- ===== src/Cpu/Mmu.antt =====
-- internal/cpu/mmu.go: the Sv39 page walk and the accesses to virtual memory.
pub mod Keeps
pub mod Offset
use rvwasm.Base.{
  ℕ, zero, suc, ◌+◌, ◌-◌, ◌*◌, ◌^◌, Bool, false, not, ◌&&◌, ◌||◌, none, some, List, [], ◌∷◌, ltb,
  leb, ◌==◌, if◌then◌else◌, ◌>>>◌, add64, shl64, low, has, bit_and, bit_or,
}
use rvwasm.Base.Bits.{bit}
use rvwasm.Cpu.Addr
use rvwasm.Cpu.Access.{
  AccessKind, AccessError, is_fetch, is_store, ok, err, Action, pure, fail, or_fail, ◌>>=◌, ◌>>◌,
}
use rvwasm.Cpu.Hart.{Hart, Platform, Access, priv_u, priv_s, priv_m}
use rvwasm.Cpu.Csr.{set_pending}
use rvwasm.Cpu.Pmp.{check_pmp}
use rvwasm.Cpu.Trap.{mpp, exc_instruction_page_fault, exc_load_page_fault, exc_store_page_fault}

abbrev pub page_size : ℕ
page_size = 4096

abbrev pub satp_mode_bare : ℕ
satp_mode_bare = 0

abbrev pub satp_mode_sv39 : ℕ
satp_mode_sv39 = 8

abbrev pub pte_v : ℕ
pte_v = 2 ^ 0

abbrev pub pte_r : ℕ
pte_r = 2 ^ 1

abbrev pub pte_w : ℕ
pte_w = 2 ^ 2

abbrev pub pte_x : ℕ
pte_x = 2 ^ 3

abbrev pub pte_u : ℕ
pte_u = 2 ^ 4

abbrev pub pte_a : ℕ
pte_a = 2 ^ 6

abbrev pub pte_d : ℕ
pte_d = 2 ^ 7

unfoldable pub page_fault_cause : AccessKind → ℕ
page_fault_cause AccessKind.fetch = exc_instruction_page_fault
page_fault_cause AccessKind.store = exc_store_page_fault
page_fault_cause AccessKind.load = exc_load_page_fault

-- `vpn[level]`
unfoldable pub vpn : ℕ → ℕ → ℕ
vpn vaddr level = low (vaddr >>> (12 + 9 * level)) 9

-- Bits 39 and up of an Sv39 address repeat bit 38.
unfoldable pub is_canonical : ℕ → Bool
is_canonical vaddr = if bit vaddr 38 == 0 then vaddr >>> 39 == 0 else vaddr >>> 39 == 2 ^ 25 - 1

-- The physical page of a leaf found at a level: the levels below it come from the address.
unfoldable pub leaf_ppn : ℕ → ℕ → ℕ → ℕ
leaf_ppn level pte vaddr =
    let ppn0 = low (pte >>> 10) 9 in
    let ppn1 = low (pte >>> 19) 9 in
    let ppn2 = low (pte >>> 28) 26 in
    if level == 2
    then bit_or (bit_or (ppn2 * 2 ^ 18) (vpn vaddr 1 * 2 ^ 9)) (vpn vaddr 0)
    else if level == 1
    then bit_or (bit_or (ppn2 * 2 ^ 18) (ppn1 * 2 ^ 9)) (vpn vaddr 0)
    else bit_or (bit_or (ppn2 * 2 ^ 18) (ppn1 * 2 ^ 9)) ppn0

-- The accessed and dirty bits that an access sets.
abbrev pub needed : AccessKind → ℕ
needed k = if is_store k then bit_or pte_a pte_d else pte_a

-- The fault that every failure of a walk ends in.
abbrev pub walk_fault : ℕ → AccessKind → AccessError
walk_fault vaddr k = AccessError.page_fault (page_fault_cause k) vaddr

module _ {S : Type 0} where
  unfoldable pub effective_priv : Hart S → AccessKind → ℕ
  effective_priv h k =
      if not (is_fetch k) && h.mode == priv_m && has (h.csr Addr.csr_mstatus) Addr.mstatus_mprv
      then mpp (h.csr Addr.csr_mstatus)
      else h.mode

  unfoldable pub pte_allows : Hart S → ℕ → ℕ → AccessKind → Bool
  pte_allows h pte priv k =
      let status = h.csr Addr.csr_mstatus in
      let u = has pte pte_u in
      if priv == priv_u && not u
      then false
      else if priv == priv_s && u && (is_fetch k || not (has status Addr.mstatus_sum))
      then false
      else elim k [
        | AccessKind.fetch ↦ has pte pte_x
        | AccessKind.store ↦ has pte pte_w
        | AccessKind.load ↦ has pte pte_r || has pte pte_x && has status Addr.mstatus_mxr
      ]

  -- The hart after devices have called `SetPending`.
  unfoldable pub deliver : List (ℕ × Bool) → Hart S → Hart S
  deliver [] h = h
  deliver ((mask, level) ∷ signals) h = deliver signals (set_pending h mask level)

  -- The end of a call into the bus: its value or a bus fault, the bus after it, and its signals.
  unfoldable pub finish : Access S → Action S ℕ
  finish a h =
      let h' = deliver a.signals (record h { bus = a.after }) in
      elim a.value [ none ↦ (err AccessError.bus_fault, h') | some v ↦ (ok v, h') ]

  unfoldable pub require_pmp : ℕ → ℕ → AccessKind → ℕ → Action S (Unit {0})
  require_pmp pa size k priv h =
      let (e, h') = check_pmp h pa size k priv in
      elim e [ none ↦ (ok tt, h') | some fault ↦ (err fault, h') ]

module _ {S : Type 0} (p : Platform S) where
  unfoldable pub bus_read : ℕ → ℕ → Action S ℕ
  bus_read addr size h = finish (p.read h.bus addr size) h

  unfoldable pub bus_read_no_trace : ℕ → ℕ → Action S ℕ
  bus_read_no_trace addr size h = finish (p.read_no_trace h.bus addr size) h

  unfoldable pub bus_write : ℕ → ℕ → ℕ → Action S ℕ
  bus_write addr size val h = finish (p.write h.bus addr size val) h

  -- The walker sets the accessed and dirty bits that the access needs.
  unfoldable pub set_used : ℕ → AccessKind → ℕ → ℕ → Action S ℕ
  set_used vaddr k pte_addr pte h =
      let used = bit_or pte (needed k) in
      if bit_and pte (needed k) == needed k
      then (ok pte, h)
      else (or_fail (bus_write pte_addr 8 used) (walk_fault vaddr k) >> pure used) h

  -- A leaf at a level: aligned, allowed, and then used. A page number has at most 44 bits, so that
  -- the address fits 56 bits and nothing wraps.
  unfoldable pub use_leaf : ℕ → AccessKind → ℕ → ℕ → ℕ → ℕ → Action S ℕ
  use_leaf vaddr k priv level pte_addr pte h =
      if ltb 0 level && not (low (pte >>> 10) (level * 9) == 0)
      then (err (walk_fault vaddr k), h)
      else if not (pte_allows h pte priv k)
      then (err (walk_fault vaddr k), h)
      else (set_used vaddr k pte_addr pte >>= λ used.
            pure (leaf_ppn level used vaddr * page_size + low vaddr 12))
          h

  -- One round of the loop for an entry: invalid, a pointer to the table below, or a leaf.
  unfoldable pub use_entry : ℕ → AccessKind → ℕ → ℕ → ℕ → ℕ → Action S ℕ → Action S ℕ
  use_entry vaddr k priv level pte_addr pte below h =
      if not (has pte pte_v) || not (has pte pte_r) && has pte pte_w
      then (err (walk_fault vaddr k), h)
      else if not (has pte (bit_or pte_r pte_x))
      then below h
      else use_leaf vaddr k priv level pte_addr pte h

  -- The loop over the levels, from `n - 1` down to 0.
  unfoldable pub walk : ℕ → ℕ → AccessKind → ℕ → ℕ → Action S ℕ
  walk zero vaddr k priv pt_addr h = (err (walk_fault vaddr k), h)
  walk (suc level) vaddr k priv pt_addr h =
      let pte_addr = pt_addr + vpn vaddr level * 8 in
      let descend = λ (pte : ℕ). walk level vaddr k priv (low (pte >>> 10) 44 * page_size) in
      (or_fail (bus_read pte_addr 8) (walk_fault vaddr k) >>= λ pte.
      use_entry vaddr k priv level pte_addr pte (descend pte))
        h

  unfoldable pub translate : ℕ → AccessKind → Action S ℕ
  translate vaddr k h =
      let priv = effective_priv h k in
      let satp = h.csr Addr.csr_satp in
      if priv == priv_m
      then (ok vaddr, h)
      else if satp >>> 60 == satp_mode_bare
      then (ok vaddr, h)
      else if not (satp >>> 60 == satp_mode_sv39)
      then (err (walk_fault vaddr k), h)
      else if not (is_canonical vaddr)
      then (err (walk_fault vaddr k), h)
      else walk 3 vaddr k priv (low satp 44 * page_size) h

  -- Translation and protection of `size` bytes that lie in one page.
  unfoldable pub locate : ℕ → ℕ → AccessKind → ℕ → Action S ℕ
  locate addr size k priv = do pa ← translate addr k; require_pmp pa size k priv; pure pa

  -- The loops of `readVirtual` and `readVirtualFetch` over the bytes of an access that crosses a
  -- page, from byte `i` on: `bus` reads a physical address.
  unfoldable pub read_bytes : (ℕ → ℕ → Action S ℕ) → ℕ → ℕ → ℕ → AccessKind → ℕ → ℕ → Action S ℕ
  read_bytes bus zero i addr k priv out h = (ok out, h)
  read_bytes bus (suc n) i addr k priv out h =
      (do
        pa ← locate (add64 addr i) 1 k priv
        b ← bus pa 1
        read_bytes bus n (i + 1) addr k priv (bit_or out (shl64 b (8 * i))))
        h

  abbrev pub read_through : (ℕ → ℕ → Action S ℕ) → ℕ → ℕ → AccessKind → Action S ℕ
  read_through bus addr size k h =
      let priv = effective_priv h k in
      if size == 0 || ltb 8 size
      then (err AccessError.bus_fault, h)
      else if leb (low addr 12 + size) page_size
      then (locate addr size k priv >>= λ pa. bus pa size) h
      else read_bytes bus size 0 addr k priv 0 h

  unfoldable pub read_virtual_fetch : ℕ → ℕ → Action S ℕ
  read_virtual_fetch addr size = read_through bus_read_no_trace addr size AccessKind.fetch

  unfoldable pub read_virtual : ℕ → ℕ → AccessKind → Action S ℕ
  read_virtual addr size k = read_through bus_read addr size k

  unfoldable pub write_bytes : ℕ → ℕ → ℕ → ℕ → ℕ → Action S (Unit {0})
  write_bytes zero i addr priv val h = (ok tt, h)
  write_bytes (suc n) i addr priv val h =
      (do
        pa ← locate (add64 addr i) 1 AccessKind.store priv
        bus_write pa 1 (val >>> (8 * i))
        write_bytes n (i + 1) addr priv val)
        h

  unfoldable pub write_virtual : ℕ → ℕ → ℕ → Action S (Unit {0})
  write_virtual addr size val h =
      let priv = effective_priv h AccessKind.store in
      if size == 0 || ltb 8 size
      then (err AccessError.bus_fault, h)
      else if leb (low addr 12 + size) page_size
      then (locate addr size AccessKind.store priv >>= λ pa. bus_write pa size val >> pure tt) h
      else write_bytes size 0 addr priv val h
