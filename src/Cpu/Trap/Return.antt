-- ===== src/Cpu/Trap/Return.antt =====
-- A trap and the return from it (`trap`, `mret` and `sret` in internal/cpu/trap.go).
use rvwasm.Base.{
  ℕ, has, Bool, true, false, ◌≡◌, ◌≤◌, ◌<◌, arith, ◌==◌, ◌&&◌, ◌||◌, not, if◌then◌else◌, Bool-cases,
  inl, inr, ap, ◌∙◌,
}
use rvwasm.Base.Bits.{bit, has-pow}
use rvwasm.Cpu.Addr
use rvwasm.Cpu.Hart.{Hart, priv_s, priv_m, priv_u}
use rvwasm.Cpu.Trap.{
  delegated, trap, trap_epc, mret, sret, mret_status, sret_status, m_trap_status, s_trap_status,
  mpp,
}
use rvwasm.Cpu.Trap.Entry.{trap-delegated, trap_undelegated}
use rvwasm.Cpu.Status.{
  bit-m_trap_status, bit-s_trap_status, bit-mret_status, bit-sret_status, mpp-m_trap_status,
}

-- The bits of mstatus after a trap and its return, from those before: the previous-state fields are
-- spent, and after mret to a lower mode MPRV is off.
abbrev pub mret_bits : ℕ → ℕ → ℕ → ℕ
mret_bits mode st k =
    if k == 7
    then 1
    else if k == 11 || k == 12
    then 0
    else if k == 17 && not (mode == priv_m)
    then 0
    else bit st k

abbrev pub sret_bits : ℕ → ℕ → ℕ
sret_bits st k = if k == 5 then 1 else if k == 8 then 0 else bit st k

-- Hart `t` is where `h` was when it took a trap: the mode, the registers and the bus, at the
-- program counter that the trap saved, with the given bits of mstatus.
abbrev pub IsResumed : {S : Type 0} → Hart S → Bool → Hart S → (ℕ → ℕ) → Type 0
IsResumed h interrupt t bits =
    (t.mode ≡ h.mode)
    × (t.pc ≡ trap_epc h interrupt)
    × (t.x ≡ h.x)
    × (t.bus ≡ h.bus)
    × ((k : ℕ) → bit (t.csr Addr.csr_mstatus) k ≡ bits k)

-- Every bit of mstatus after a trap to M-mode and its return.
bit-mret-m_trap :
    (mode st k : ℕ)
    → mode < 4
    → bit (mret_status (m_trap_status mode st)) k ≡ (
        if k == 7
        then 1
        else if k == 11 || k == 12
        then 0
        else if k == 17 && not (mode == priv_m)
        then 0
        else bit st k)
bit-mret-m_trap mode st k m = ground (
  arith,
  bit-mret_status (m_trap_status mode st) k,
  bit-m_trap_status mode st k m,
  bit-m_trap_status mode st 7 m,
  mpp-m_trap_status mode st m,
)

bit-sret-s_trap :
    (mode st k : ℕ)
    → bit (sret_status (s_trap_status mode st)) k
      ≡ (if k == 5 then 1 else if k == 8 then 0 else bit st k)
bit-sret-s_trap mode st k = ground (
  arith,
  bit-sret_status (s_trap_status mode st) k,
  bit-s_trap_status mode st k,
  bit-s_trap_status mode st 5,
)

module _ {S : Type 0} where
  -- A trap that is not delegated, from a mode below 4, and then mret give back the mode, the
  -- registers and the bus, go to the saved program counter, and leave every bit of mstatus but
  -- MPIE (now 1), MPP (now 0) and, when the mode is not M, MPRV (now 0); so MIE is restored.
  pub mret-trap :
      (h : Hart S) (cause tval : ℕ) (interrupt : Bool)
      → delegated h cause interrupt ≡ false
      → h.mode < 4
      → IsResumed h interrupt
          (mret (trap h cause tval interrupt))
          (mret_bits h.mode (h.csr Addr.csr_mstatus))
  unfolding mret
  mret-trap h cause tval interrupt e m =
      let (mode, st, epc, cause_set, tval_set, pc_set, x_kept, bus_kept, raised) =
        trap_undelegated h cause tval interrupt e in
      let status = h.csr Addr.csr_mstatus in
      (
        ap mpp st ∙ mpp-m_trap_status h.mode status m,
        epc,
        x_kept,
        bus_kept,
        λ k. ap (λ (t : ℕ). bit (mret_status t) k) st ∙ bit-mret-m_trap h.mode status k m,
      )

  -- A delegated trap and then sret give back the mode, the registers and the bus, go to the saved
  -- program counter, and leave every bit of mstatus but SPIE (now 1) and SPP (now 0); so SIE is
  -- restored.
  pub sret-trap :
      (h : Hart S) (cause tval : ℕ) (interrupt : Bool)
      → delegated h cause interrupt ≡ true
      → IsResumed h interrupt
          (sret (trap h cause tval interrupt))
          (sret_bits (h.csr Addr.csr_mstatus))
  unfolding sret
  sret-trap h cause tval interrupt e =
      let (mode, st, epc, cause_set, tval_set, pc_set, x_kept, bus_kept, raised) =
        trap-delegated h cause tval interrupt e in
      let status = h.csr Addr.csr_mstatus in
      (
        ap (λ (t : ℕ). if has t Addr.mstatus_spp then priv_s else priv_u) st
            ∙ from_mode (low_mode e),
        epc,
        x_kept,
        bus_kept,
        λ k. ap (λ (t : ℕ). bit (sret_status t) k) st ∙ bit-sret-s_trap h.mode status k,
      )
    where
      low_mode : delegated h cause interrupt ≡ true → h.mode ≤ 1
      low_mode d = unfold delegated in ground (arith, d)

      from_mode :
          h.mode ≤ 1
          → (if has (s_trap_status h.mode (h.csr Addr.csr_mstatus)) Addr.mstatus_spp
              then priv_s
              else priv_u)
            ≡ h.mode
      from_mode l =
          let status = h.csr Addr.csr_mstatus in
          ground (arith, has-pow 8 (s_trap_status h.mode status), bit-s_trap_status h.mode status 8)

  -- A trap from a mode below 4 never goes to a mode below the one it comes from.
  pub mode-trap :
      (h : Hart S) (cause tval : ℕ) (interrupt : Bool)
      → h.mode < 4
      → h.mode ≤ (trap h cause tval interrupt).mode
  mode-trap h cause tval interrupt m = elim (Bool-cases (delegated h cause interrupt)) [
    | inl e ↦
        let t = trap-delegated h cause tval interrupt e in unfold delegated in ground (arith, t)
    | inr e ↦ ground (arith, trap_undelegated h cause tval interrupt e)
  ]
