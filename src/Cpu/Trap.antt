-- ===== src/Cpu/Trap.antt =====
-- internal/cpu/trap.go: taking a trap, returning from one, and choosing the interrupt to take.
pub mod Entry
pub mod Return
pub mod Priority
use rvwasm.Base.{
  ℕ, ◌*◌, ◌^◌, Bool, true, false, ◌&&◌, ◌||◌, List, [], ◌∷◌, ltb, leb, ◌==◌, if◌then◌else◌, ◌>>>◌,
  add64, and_not, low, has, bit_and, bit_or,
}
use rvwasm.Base.Bits.{bit}
use rvwasm.Cpu.Hart.{Hart, set_csr, trace_trap, priv_u, priv_s, priv_m}
use rvwasm.Cpu.Addr
use rvwasm.Cpu.Access.{AccessKind, AccessError}

abbrev pub exc_instruction_misaligned : ℕ
exc_instruction_misaligned = 0

abbrev pub exc_instruction_access_fault : ℕ
exc_instruction_access_fault = 1

abbrev pub exc_illegal_instruction : ℕ
exc_illegal_instruction = 2

abbrev pub exc_breakpoint : ℕ
exc_breakpoint = 3

abbrev pub exc_load_misaligned : ℕ
exc_load_misaligned = 4

abbrev pub exc_load_access_fault : ℕ
exc_load_access_fault = 5

abbrev pub exc_store_misaligned : ℕ
exc_store_misaligned = 6

abbrev pub exc_store_access_fault : ℕ
exc_store_access_fault = 7

abbrev pub exc_ecall_u : ℕ
exc_ecall_u = 8

abbrev pub exc_ecall_s : ℕ
exc_ecall_s = 9

abbrev pub exc_ecall_m : ℕ
exc_ecall_m = 11

abbrev pub exc_instruction_page_fault : ℕ
exc_instruction_page_fault = 12

abbrev pub exc_load_page_fault : ℕ
exc_load_page_fault = 13

abbrev pub exc_store_page_fault : ℕ
exc_store_page_fault = 15

abbrev pub interrupt_bit : ℕ
interrupt_bit = 2 ^ 63

unfoldable pub vector_base : ℕ → ℕ → Bool → ℕ
vector_base tvec cause interrupt =
    let base = and_not tvec 3 in
    if low tvec 2 == 1 && interrupt then add64 base (4 * cause) else base

-- `if st&from != 0 { st |= to } else { st &^= to }`
unfoldable pub copy_bit : ℕ → ℕ → ℕ → ℕ
copy_bit st from to = if has st from then bit_or st to else and_not st to

-- mstatus after a trap into S-mode and after one into M-mode, from the mode that was left.
unfoldable pub s_trap_status : ℕ → ℕ → ℕ
s_trap_status mode st =
    let st' = and_not (copy_bit st Addr.mstatus_sie Addr.mstatus_spie) Addr.mstatus_sie in
    if mode == priv_s then bit_or st' Addr.mstatus_spp else and_not st' Addr.mstatus_spp

unfoldable pub m_trap_status : ℕ → ℕ → ℕ
m_trap_status mode st =
    let st' = and_not (copy_bit st Addr.mstatus_mie Addr.mstatus_mpie) Addr.mstatus_mie in
    bit_or (and_not st' Addr.mstatus_mpp_mask) (mode * 2 ^ Addr.mstatus_mpp_shift)

-- `(st & MSTATUS_MPP_MASK) >> MSTATUS_MPP_SHIFT`
unfoldable pub mpp : ℕ → ℕ
mpp st = bit_and st Addr.mstatus_mpp_mask >>> Addr.mstatus_mpp_shift

-- mstatus after `mret` and after `sret`.
unfoldable pub mret_status : ℕ → ℕ
mret_status st =
    let st' = bit_or (copy_bit st Addr.mstatus_mpie Addr.mstatus_mie) Addr.mstatus_mpie in
    let st'' = and_not st' Addr.mstatus_mpp_mask in
    if mpp st == priv_m then st'' else and_not st'' Addr.mstatus_mprv

unfoldable pub sret_status : ℕ → ℕ
sret_status st =
    let st' = bit_or (copy_bit st Addr.mstatus_spie Addr.mstatus_sie) Addr.mstatus_spie in
    and_not st' Addr.mstatus_spp

-- The value for mcause or scause.
abbrev pub trap_code : ℕ → Bool → ℕ
trap_code cause interrupt = if interrupt then bit_or cause interrupt_bit else cause

abbrev pub interrupt_order : List ℕ
interrupt_order = 11 ∷ 3 ∷ 7 ∷ 9 ∷ 1 ∷ 5 ∷ []

unfoldable pub access_fault_cause : AccessKind → ℕ
access_fault_cause AccessKind.fetch = exc_instruction_access_fault
access_fault_cause AccessKind.store = exc_store_access_fault
access_fault_cause AccessKind.load = exc_load_access_fault

module _ {S : Type 0} where
  -- The bit of medeleg or mideleg, and the mode: whether the trap goes to S-mode.
  unfoldable pub delegated : Hart S → ℕ → Bool → Bool
  delegated h cause interrupt =
      let deleg = (if interrupt then h.csr Addr.csr_mideleg else h.csr Addr.csr_medeleg) in
      bit deleg cause == 1 && leb h.mode priv_s

  -- The part of `trap` before it is decided where it goes.
  abbrev pub note_trap : Hart S → ℕ → ℕ → Bool → Hart S
  note_trap h cause tval interrupt = record h {
    trap_raised = true;
    last_trap_cause = cause;
    last_trap_tval = tval;
    last_trap_interrupt = interrupt;
  }

  abbrev pub trap_epc : Hart S → Bool → ℕ
  trap_epc h interrupt = if interrupt then h.pc else h.inst_pc

  -- What `trap` does after tracing when it goes to S-mode, and when it goes to M-mode.
  unfoldable pub enter_s : Hart S → ℕ → ℕ → Bool → Hart S
  enter_s h cause tval interrupt =
      let u =
        set_csr
          (set_csr (set_csr h Addr.csr_sepc (trap_epc h interrupt)) Addr.csr_scause
            (trap_code cause interrupt))
          Addr.csr_stval tval in
      let v = set_csr u Addr.csr_mstatus (s_trap_status h.mode (u.csr Addr.csr_mstatus)) in
      record v { mode = priv_s; pc = vector_base (v.csr Addr.csr_stvec) cause interrupt }

  unfoldable pub enter_m : Hart S → ℕ → ℕ → Bool → Hart S
  enter_m h cause tval interrupt =
      let u =
        set_csr
          (set_csr (set_csr h Addr.csr_mepc (trap_epc h interrupt)) Addr.csr_mcause
            (trap_code cause interrupt))
          Addr.csr_mtval tval in
      let v = set_csr u Addr.csr_mstatus (m_trap_status h.mode (u.csr Addr.csr_mstatus)) in
      record v { mode = priv_m; pc = vector_base (v.csr Addr.csr_mtvec) cause interrupt }

  unfoldable pub trap : Hart S → ℕ → ℕ → Bool → Hart S
  trap h cause tval interrupt =
      let noted = note_trap h cause tval interrupt in
      if delegated h cause interrupt
      then enter_s (trace_trap noted cause tval interrupt priv_s) cause tval interrupt
      else enter_m (trace_trap noted cause tval interrupt priv_m) cause tval interrupt

  unfoldable pub raise_exception : Hart S → ℕ → ℕ → Hart S
  raise_exception h cause tval = trap h cause tval false

  unfoldable pub mret : Hart S → Hart S
  mret h =
      let st = h.csr Addr.csr_mstatus in
      let h' = set_csr h Addr.csr_mstatus (mret_status st) in
      record h' { mode = mpp st; pc = h'.csr Addr.csr_mepc }

  unfoldable pub sret : Hart S → Hart S
  sret h =
      let st = h.csr Addr.csr_mstatus in
      let h' = set_csr h Addr.csr_mstatus (sret_status st) in
      record h' {
        mode = if has st Addr.mstatus_spp then priv_s else priv_u;
        pc = h'.csr Addr.csr_sepc;
      }

  -- Whether a pending interrupt may be taken now.
  unfoldable pub deliverable : Hart S → ℕ → Bool
  deliverable h cause =
      let pending = bit_and (h.csr Addr.csr_mip) (h.csr Addr.csr_mie) in
      let status = h.csr Addr.csr_mstatus in
      has pending (2 ^ cause)
      && (if has (h.csr Addr.csr_mideleg) (2 ^ cause)
          then ltb h.mode priv_s || h.mode == priv_s && has status Addr.mstatus_sie
          else ltb h.mode priv_m || h.mode == priv_m && has status Addr.mstatus_mie)

  -- The loop of `checkInterrupt` over the causes in order of priority.
  unfoldable pub take_first : Hart S → List ℕ → Hart S × Bool
  take_first h [] = (h, false)
  take_first h (cause ∷ causes) =
      if deliverable h cause then (trap h cause 0 true, true) else take_first h causes

  unfoldable pub check_interrupt : Hart S → Hart S × Bool
  check_interrupt h =
      if bit_and (h.csr Addr.csr_mip) (h.csr Addr.csr_mie) == 0
      then (h, false)
      else take_first h interrupt_order

  -- `raiseAccessError` of internal/cpu/mmu.go: the fault carries its own cause and address, and
  -- any other error is an access fault at the address of the access.
  unfoldable pub raise_access_error : Hart S → AccessKind → ℕ → AccessError → Hart S
  raise_access_error h k addr (AccessError.page_fault cause tval) = raise_exception h cause tval
  raise_access_error h k addr (AccessError.pmp_fault kind at) =
      raise_exception h (access_fault_cause kind) at
  raise_access_error h k addr AccessError.bus_fault = raise_exception h (access_fault_cause k) addr
