-- ===== src/Cpu/Csr.antt =====
-- internal/cpu/csr.go: which control and status registers there are, who may read and write them, and what
-- a read and a write do.
use rvwasm.Base.{
  ℕ, ◌+◌, ◌-◌, ◌*◌, ◌^◌, Bool, true, false, not, ◌&&◌, ◌||◌, List, [], ◌∷◌, ltb, leb, ◌==◌,
  if◌then◌else◌, ◌>>>◌, and_not, low, has, bit_and, bit_or, ones64,
}
use rvwasm.Base.Arrays.{update}
use rvwasm.Cpu.Hart.{Hart, set_csr, priv_m, priv_s}
use rvwasm.Cpu.Pmp.{is_pmp_cfg_csr, is_pmp_addr_csr, pmp_set_cfg_csr, pmp_set_addr_csr}
use rvwasm.Cpu.Addr

infixl 60 ◌|||◌
abbrev ◌|||◌ : ℕ → ℕ → ℕ
a ||| b = bit_or a b

abbrev pub sstatus_mask : ℕ
sstatus_mask =
    Addr.mstatus_uie ||| Addr.mstatus_sie ||| Addr.mstatus_upie ||| Addr.mstatus_spie
    ||| Addr.mstatus_spp ||| Addr.mstatus_fs_mask ||| Addr.mstatus_xs_mask ||| Addr.mstatus_sum
    ||| Addr.mstatus_mxr ||| Addr.mstatus_uxl_mask ||| Addr.mstatus_sd

abbrev pub sip_mask : ℕ
sip_mask = Addr.mip_ssip ||| Addr.mip_stip ||| Addr.mip_seip

-- `2 << 62` on a uint64
abbrev pub misa_rv64imac : ℕ
misa_rv64imac = 2 * 2 ^ 62 ||| 2 ^ 0 ||| 2 ^ 2 ||| 2 ^ 8 ||| 2 ^ 12 ||| 2 ^ 18 ||| 2 ^ 20

-- `(2 << 32) | (2 << 34)`: UXL and SXL say 64.
abbrev pub xl_64 : ℕ
xl_64 = 2 * 2 ^ 32 ||| 2 * 2 ^ 34

unfoldable pub elem : ℕ → List ℕ → Bool
elem a [] = false
elem a (b ∷ bs) = a == b || elem a bs

-- The addresses of the first four cases of `csrExists`.
abbrev user_csrs : List ℕ
user_csrs =
    Addr.csr_ustatus ∷ Addr.csr_uie ∷ Addr.csr_utvec ∷ Addr.csr_uscratch ∷ Addr.csr_uepc
    ∷ Addr.csr_ucause ∷ Addr.csr_utval ∷ Addr.csr_uip ∷ []

abbrev supervisor_csrs : List ℕ
supervisor_csrs =
    Addr.csr_sstatus ∷ Addr.csr_sedeleg ∷ Addr.csr_sideleg ∷ Addr.csr_sie ∷ Addr.csr_stvec
    ∷ Addr.csr_scounteren ∷ Addr.csr_senvcfg ∷ Addr.csr_sscratch ∷ Addr.csr_sepc ∷ Addr.csr_scause
    ∷ Addr.csr_stval ∷ Addr.csr_sip ∷ Addr.csr_satp ∷ []

abbrev machine_csrs : List ℕ
machine_csrs =
    Addr.csr_mvendorid ∷ Addr.csr_marchid ∷ Addr.csr_mimpid ∷ Addr.csr_mhartid ∷ Addr.csr_mconfigptr
    ∷ Addr.csr_mstatus ∷ Addr.csr_misa ∷ Addr.csr_medeleg ∷ Addr.csr_mideleg ∷ Addr.csr_mie
    ∷ Addr.csr_mtvec ∷ Addr.csr_mcounteren ∷ Addr.csr_mcountinhibit ∷ Addr.csr_mstatush
    ∷ Addr.csr_menvcfg ∷ Addr.csr_menvcfgh ∷ Addr.csr_mseccfg ∷ Addr.csr_mstateen0
    ∷ Addr.csr_mstateen1 ∷ Addr.csr_mstateen2 ∷ Addr.csr_mstateen3 ∷ Addr.csr_mscratch
    ∷ Addr.csr_mepc ∷ Addr.csr_mcause ∷ Addr.csr_mtval ∷ Addr.csr_mip ∷ Addr.csr_mtinst
    ∷ Addr.csr_mtval2 ∷ []

abbrev counter_csrs : List ℕ
counter_csrs =
    Addr.csr_mcycle ∷ Addr.csr_minstret ∷ Addr.csr_cycle ∷ Addr.csr_time ∷ Addr.csr_instret ∷ []

unfoldable pub is_hpm_csr : ℕ → Bool
is_hpm_csr addr =
    leb Addr.csr_hpmcounter3 addr && leb addr 0xc1f
    || leb Addr.csr_mhpmcounter3 addr && leb addr 0xb1f

unfoldable pub csr_exists : ℕ → Bool
csr_exists addr =
    elem addr user_csrs
    || elem addr supervisor_csrs
    || elem addr machine_csrs
    || elem addr counter_csrs
    || is_pmp_cfg_csr addr
    || is_pmp_addr_csr addr
    || is_hpm_csr addr

-- `(old &^ mask) | (val & mask)`
unfoldable pub merge : ℕ → ℕ → ℕ → ℕ
merge old val mask = bit_or (and_not old mask) (bit_and val mask)

-- What a write of mstatus stores: MPP 2 becomes 0, SD is cleared, and UXL and SXL stay 64 bits.
unfoldable pub legal_mstatus : ℕ → ℕ
legal_mstatus val =
    let v =
      (if bit_and val Addr.mstatus_mpp_mask >>> Addr.mstatus_mpp_shift == 2
        then and_not val Addr.mstatus_mpp_mask
        else val) in
    bit_or (and_not v (Addr.mstatus_uxl_mask ||| Addr.mstatus_sxl_mask ||| Addr.mstatus_sd)) xl_64

abbrev read_only_csrs : List ℕ
read_only_csrs =
    Addr.csr_misa ∷ Addr.csr_mvendorid ∷ Addr.csr_marchid ∷ Addr.csr_mimpid ∷ Addr.csr_mhartid
    ∷ Addr.csr_mconfigptr ∷ []

abbrev stateen_csrs : List ℕ
stateen_csrs =
    Addr.csr_mstateen0 ∷ Addr.csr_mstateen1 ∷ Addr.csr_mstateen2 ∷ Addr.csr_mstateen3 ∷ []

abbrev user_counters : List ℕ
user_counters = Addr.csr_cycle ∷ Addr.csr_time ∷ Addr.csr_instret ∷ []

module _ {S : Type 0} where
  -- `csrAllowed`: bits 8 and 9 of the address are the lowest privilege, and 3 in bits 10 and 11
  -- says read-only, which counts when `read_only_check` is false.
  unfoldable pub csr_allowed : Hart S → ℕ → Bool → Bool
  csr_allowed h addr read_only_check =
      not (ltb h.mode (low (addr >>> 8) 2)) && (read_only_check || not (low (addr >>> 10) 2 == 3))

  -- The test of the counter-enable registers at one bit.
  abbrev counter_enabled : Hart S → ℕ → Bool
  counter_enabled h b =
      not (ltb h.mode priv_m && not (has (h.csr Addr.csr_mcounteren) (2 ^ b)))
      && not (ltb h.mode priv_s && not (has (h.csr Addr.csr_scounteren) (2 ^ b)))

  unfoldable pub csr_counter_allowed : Hart S → ℕ → Bool
  csr_counter_allowed h addr =
      if addr == Addr.csr_cycle
      then counter_enabled h 0
      else if addr == Addr.csr_time
      then counter_enabled h 1
      else if addr == Addr.csr_instret
      then counter_enabled h 2
      else if leb Addr.csr_hpmcounter3 addr && leb addr 0xc1f
      then counter_enabled h (addr - Addr.csr_hpmcounter3 + 3)
      else true

  unfoldable pub csr_read : Hart S → ℕ → ℕ
  csr_read h addr =
      if addr == Addr.csr_sstatus
      then bit_and (h.csr Addr.csr_mstatus) sstatus_mask
      else if addr == Addr.csr_sie
      then bit_and (h.csr Addr.csr_mie) (h.csr Addr.csr_mideleg)
      else if addr == Addr.csr_sip
      then bit_and (h.csr Addr.csr_mip) sip_mask
      else if addr == Addr.csr_cycle || addr == Addr.csr_mcycle
      then h.cycle
      else if addr == Addr.csr_instret || addr == Addr.csr_minstret
      then h.instret
      else if addr == Addr.csr_time
      then h.time
      else if addr == Addr.csr_misa
      then misa_rv64imac
      else if addr == Addr.csr_mhartid
      then h.hart_id
      else if is_hpm_csr addr
      then 0
      else h.csr addr

  unfoldable pub csr_write : Hart S → ℕ → ℕ → Hart S
  csr_write h addr val =
      if elem addr read_only_csrs
      then h
      else if addr == Addr.csr_sstatus
      then set_csr h Addr.csr_mstatus (merge (h.csr Addr.csr_mstatus) val sstatus_mask)
      else if addr == Addr.csr_mstatus
      then set_csr h Addr.csr_mstatus (legal_mstatus val)
      else if addr == Addr.csr_senvcfg
      then set_csr h Addr.csr_senvcfg (bit_and val (h.csr Addr.csr_menvcfg))
      else if addr == Addr.csr_menvcfg
      then set_csr (set_csr h Addr.csr_menvcfg val) Addr.csr_senvcfg
          (bit_and (h.csr Addr.csr_senvcfg) val)
      else if elem addr stateen_csrs
      then set_csr h addr 0
      else if addr == Addr.csr_sie
      then set_csr h Addr.csr_mie (merge (h.csr Addr.csr_mie) val (h.csr Addr.csr_mideleg))
      else if addr == Addr.csr_sip
      then set_csr h Addr.csr_mip (merge (h.csr Addr.csr_mip) val sip_mask)
      else if addr == Addr.csr_mip
      then set_csr h Addr.csr_mip val
      else if elem addr user_counters
      then h
      else if addr == Addr.csr_mcycle
      then record h { cycle = val }
      else if addr == Addr.csr_minstret
      then record h { instret = val }
      else if is_pmp_cfg_csr addr
      then pmp_set_cfg_csr h addr val
      else if is_pmp_addr_csr addr
      then pmp_set_addr_csr h addr val
      else set_csr h addr val

  -- `SetPending`, by which devices drive mip.
  unfoldable pub set_pending : Hart S → ℕ → Bool → Hart S
  set_pending h mask set =
      set_csr h Addr.csr_mip
        (if set then bit_or (h.csr Addr.csr_mip) mask else and_not (h.csr Addr.csr_mip) mask)

  -- The map that `initCSR` makes: what it does not store is 0.
  unfoldable pub init_csr : Hart S → Hart S
  init_csr h = record h {
    csr =
        update
          (update
            (update
              (update (update (λ _. 0) Addr.csr_misa misa_rv64imac) Addr.csr_mhartid h.hart_id)
              Addr.csr_mstatus xl_64)
            Addr.csr_mcounteren ones64)
          Addr.csr_scounteren ones64;
  }
