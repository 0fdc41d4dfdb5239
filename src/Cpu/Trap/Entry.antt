-- ===== src/Cpu/Trap/Entry.antt =====
-- What a trap leaves behind, by where it goes (`trap` in internal/cpu/trap.go).
use rvwasm.Base.{ℕ, Bool, true, false, ◌≡◌, refl, if-keeps, arith}
use rvwasm.Cpu.Addr
use rvwasm.Cpu.Hart.{Hart, trace_trap, priv_s, priv_m}
use rvwasm.Cpu.Trap.{
  delegated, note_trap, trap, trap_code, trap_epc, enter_s, enter_m, s_trap_status, m_trap_status,
  vector_base,
}

module _ {S : Type 0} where
  -- Tracing changes nothing that a trap reads.
  abbrev SameState : Hart S → Hart S → Type 0
  SameState h t =
      (t.csr ≡ h.csr)
      × (t.mode ≡ h.mode)
      × (t.pc ≡ h.pc)
      × (t.inst_pc ≡ h.inst_pc)
      × (t.x ≡ h.x)
      × (t.bus ≡ h.bus)
      × (t.trap_raised ≡ h.trap_raised)

  trace_trap-SameState :
      (h : Hart S) (cause tval : ℕ) (interrupt : Bool) (target : ℕ)
      → SameState h (trace_trap h cause tval interrupt target)
  unfolding trace_trap
  trace_trap-SameState h cause tval interrupt target =
      if-keeps (SameState h) h.diag.trace (refl, refl, refl, refl, refl, refl, refl)
        (refl, refl, refl, refl, refl, refl, refl)

  -- The registers, the bus and the flag after a trap from `h` to `t`, on either way.
  abbrev Kept : Hart S → Hart S → Type 0
  Kept h t = (t.x ≡ h.x) × (t.bus ≡ h.bus) × (t.trap_raised ≡ true)

  -- A trap that goes to S-mode.
  pub trap-delegated :
      (h : Hart S) (cause tval : ℕ) (interrupt : Bool)
      → delegated h cause interrupt ≡ true
      → let t = trap h cause tval interrupt in
        (t.mode ≡ priv_s)
        × (t.csr Addr.csr_mstatus ≡ s_trap_status h.mode (h.csr Addr.csr_mstatus))
        × (t.csr Addr.csr_sepc ≡ trap_epc h interrupt)
        × (t.csr Addr.csr_scause ≡ trap_code cause interrupt)
        × (t.csr Addr.csr_stval ≡ tval)
        × (t.pc ≡ vector_base (h.csr Addr.csr_stvec) cause interrupt)
        × (t.x ≡ h.x)
        × (t.bus ≡ h.bus)
        × (t.trap_raised ≡ true)
  unfolding trap enter_s
  trap-delegated h cause tval interrupt e =
      let s = trace_trap-SameState (note_trap h cause tval interrupt) cause tval interrupt priv_s in
      rw e (ground (arith, s))

  -- A trap that goes to M-mode.
  pub trap_undelegated :
      (h : Hart S) (cause tval : ℕ) (interrupt : Bool)
      → delegated h cause interrupt ≡ false
      → let t = trap h cause tval interrupt in
        (t.mode ≡ priv_m)
        × (t.csr Addr.csr_mstatus ≡ m_trap_status h.mode (h.csr Addr.csr_mstatus))
        × (t.csr Addr.csr_mepc ≡ trap_epc h interrupt)
        × (t.csr Addr.csr_mcause ≡ trap_code cause interrupt)
        × (t.csr Addr.csr_mtval ≡ tval)
        × (t.pc ≡ vector_base (h.csr Addr.csr_mtvec) cause interrupt)
        × (t.x ≡ h.x)
        × (t.bus ≡ h.bus)
        × (t.trap_raised ≡ true)
  unfolding trap enter_m
  trap_undelegated h cause tval interrupt e =
      let s = trace_trap-SameState (note_trap h cause tval interrupt) cause tval interrupt priv_m in
      rw e (ground (arith, s))
