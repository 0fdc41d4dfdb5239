-- ===== src/Cpu/Pmp.antt =====
-- internal/cpu/pmp.go: physical memory protection. Sixty-four entries, each an 8-bit configuration
-- packed into pmpcfg0, pmpcfg2, .. pmpcfg14 and an address register.
use rvwasm.Base.{
  ℕ, zero, suc, ◌+◌, ◌-◌, ◌*◌, ◌/◌, ◌%◌, ◌^◌, Bool, true, false, not, ◌&&◌, ◌||◌, Option, none,
  some, ltb, leb, ◌==◌, if◌then◌else◌, ◌>>>◌, shl64, add64, and_not, low, u8, has, bit_or,
}
use rvwasm.Base.Bits.{bit}
use rvwasm.Cpu.Access.{AccessKind, AccessError}
use rvwasm.Cpu.Hart.{Hart, set_csr, priv_m}
use rvwasm.Cpu.Addr.{csr_pmpcfg0, csr_pmpaddr0}

abbrev pub pmp_r : ℕ
pmp_r = 2 ^ 0

abbrev pub pmp_w : ℕ
pmp_w = 2 ^ 1

abbrev pub pmp_x : ℕ
pmp_x = 2 ^ 2

abbrev pub pmp_l : ℕ
pmp_l = 2 ^ 7

abbrev pub pmp_entry_count : ℕ
pmp_entry_count = 64

unfoldable pub pmp_cfg_csr_for_entry : ℕ → ℕ
pmp_cfg_csr_for_entry i = csr_pmpcfg0 + i / 8 * 2

unfoldable pub is_pmp_cfg_csr : ℕ → Bool
is_pmp_cfg_csr addr =
    leb csr_pmpcfg0 addr && leb addr (csr_pmpcfg0 + 14) && (addr - csr_pmpcfg0) % 2 == 0

unfoldable pub is_pmp_addr_csr : ℕ → Bool
is_pmp_addr_csr addr = leb csr_pmpaddr0 addr && ltb addr (csr_pmpaddr0 + pmp_entry_count)

-- Byte `i` of a new value of a pmpcfg register: a byte whose old value is locked stays.
unfoldable pub merged_byte : ℕ → ℕ → ℕ → ℕ
merged_byte old val i =
    let new_byte = u8 (val >>> (i * 8)) in
    let old_byte = u8 (old >>> (i * 8)) in if has old_byte pmp_l then old_byte else new_byte

-- The loop of `pmpSetCfgCSR` from byte `i` on, with the rounds left and the value so far.
unfoldable pub merge_cfg : ℕ → ℕ → ℕ → ℕ → ℕ → ℕ
merge_cfg zero i old val out = out
merge_cfg (suc n) i old val out =
    merge_cfg n (i + 1) old val (bit_or out (shl64 (merged_byte old val i) (i * 8)))

-- `for ones < 56 && (addr>>ones)&1 == 1 { ones++ }`, with the rounds left.
unfoldable pub trailing_ones : ℕ → ℕ → ℕ → ℕ
trailing_ones zero ones addr = ones
trailing_ones (suc n) ones addr =
    let more = trailing_ones n (ones + 1) addr in if bit addr ones == 1 then more else ones

-- `(cfg >> 3) & 3`: 0 is off, then TOR, NA4 and NAPOT.
abbrev pub pmp_mode : ℕ → ℕ
pmp_mode cfg = low (cfg >>> 3) 2

-- What a matching entry says: an unlocked one does not restrict M-mode.
unfoldable pub entry_permits : ℕ → AccessKind → ℕ → Bool
entry_permits cfg k priv = if priv == priv_m && not (has cfg pmp_l) then true else elim k [
  | AccessKind.fetch ↦ has cfg pmp_x
  | AccessKind.load ↦ has cfg pmp_r
  | AccessKind.store ↦ has cfg pmp_w
]

-- `pmpCfg` reads nothing of a hart but its CSRs.
unfoldable pub pmp_cfg : (ℕ → ℕ) → ℕ → ℕ
pmp_cfg csr i =
    if leb pmp_entry_count i then 0 else u8 (csr (pmp_cfg_csr_for_entry i) >>> (i % 8 * 8))

-- The scan of `anyPMPConfigured` and of `refreshPMPActive` from entry `i` on.
unfoldable pub any_configured_from : (ℕ → ℕ) → ℕ → ℕ → Bool
any_configured_from csr zero i = false
any_configured_from csr (suc n) i =
    let rest = any_configured_from csr n (i + 1) in
    if pmp_mode (pmp_cfg csr i) == 0 then rest else true

-- One round of `pmpPermits`: the entry is off, or the byte is outside it, or the entry decides.
-- What the later rounds say is given for both of the former.
unfoldable pub permits_entry : Option (ℕ × ℕ) → ℕ → ℕ → AccessKind → ℕ → Bool → Bool → Bool
permits_entry none cfg pa k priv skipped passed = skipped
permits_entry (some (lo, hi)) cfg pa k priv skipped passed =
    if ltb pa lo || leb hi pa then passed else entry_permits cfg k priv

module _ {S : Type 0} where
  unfoldable pub any_pmp_configured : Hart S → Bool
  any_pmp_configured h = any_configured_from h.csr pmp_entry_count 0

  unfoldable pub refresh_pmp_active : Hart S → Hart S
  refresh_pmp_active h = record h {
    pmp_checked = true;
    pmp_active = any_configured_from h.csr pmp_entry_count 0;
  }

  unfoldable pub pmp_set_cfg_csr : Hart S → ℕ → ℕ → Hart S
  pmp_set_cfg_csr h addr val =
      if is_pmp_cfg_csr addr
      then refresh_pmp_active (set_csr h addr (merge_cfg 8 0 (h.csr addr) val 0))
      else set_csr h addr val

  -- Called for the addresses of `pmpaddr` registers only; any other is stored as it is.
  unfoldable pub pmp_set_addr_csr : Hart S → ℕ → ℕ → Hart S
  pmp_set_addr_csr h addr val =
      if ltb addr csr_pmpaddr0 || leb pmp_entry_count (addr - csr_pmpaddr0)
      then set_csr h addr val
      else if has (pmp_cfg h.csr (addr - csr_pmpaddr0)) pmp_l
      then h
      else set_csr h addr (low val 56)

  -- `pmpRange`: the bytes from the first bound up to the second; `none` is `ok == false`.
  unfoldable pub pmp_range : Hart S → ℕ → Option (ℕ × ℕ)
  pmp_range h i =
      let a = pmp_mode (pmp_cfg h.csr i) in
      let addr = h.csr (csr_pmpaddr0 + i) in
      if a == 0
      then none
      else if a == 1
      then (let lo = (if ltb 0 i then shl64 (h.csr (csr_pmpaddr0 + (i - 1))) 2 else 0) in
          let hi = shl64 addr 2 in if ltb lo hi then some (lo, hi) else none)
      else if a == 2
      then some (shl64 addr 2, add64 (shl64 addr 2) 4)
      else (let ones = trailing_ones 56 0 addr in
          let size = 2 ^ (ones + 3) in
          let mask = 2 ^ (ones + 1) - 1 in
          let lo = shl64 (and_not addr mask) 2 in some (lo, add64 lo size))

  -- The loop of `pmpPermits` from entry `i` on.
  unfoldable pub permits_from : Hart S → ℕ → ℕ → Bool → ℕ → AccessKind → ℕ → Bool
  permits_from h zero i configured pa k priv = not configured || priv == priv_m
  permits_from h (suc n) i configured pa k priv =
      let skipped = permits_from h n (i + 1) configured pa k priv in
      let passed = permits_from h n (i + 1) true pa k priv in
      permits_entry (pmp_range h i) (pmp_cfg h.csr i) pa k priv skipped passed

  unfoldable pub pmp_permits : Hart S → ℕ → AccessKind → ℕ → Bool
  pmp_permits h pa k priv = permits_from h pmp_entry_count 0 false pa k priv

  -- The loop of `checkPMP` over `n` bytes from byte `i` of the access on.
  unfoldable pub check_bytes : Hart S → ℕ → ℕ → ℕ → AccessKind → ℕ → Option AccessError
  check_bytes h zero i pa k priv = none
  check_bytes h (suc n) i pa k priv =
      let rest = check_bytes h n (i + 1) pa k priv in
      if pmp_permits h (add64 pa i) k priv
      then rest
      else some (AccessError.pmp_fault k (add64 pa i))

  -- The cached flag spares the scan; it is computed first if it never was.
  unfoldable pub cached_pmp : Hart S → Hart S
  cached_pmp h = if h.pmp_active || h.pmp_checked then h else refresh_pmp_active h

  -- `checkPMP` for a size above 0, which every caller gives: the error, and the hart with its cache.
  unfoldable pub check_pmp : Hart S → ℕ → ℕ → AccessKind → ℕ → Option AccessError × Hart S
  check_pmp h pa size k priv =
      let h' = cached_pmp h in (if h'.pmp_active then check_bytes h' size 0 pa k priv else none, h')
