-- ===== src/Cpu/Legal/State.antt =====
-- Which privilege modes and which values of MPP are legal, and the functions of internal/cpu that change them.
use rvwasm.Base.{ℕ, ◌<◌, Bool, ◌≢◌, arith, Bool-cases, inl, inr}
use rvwasm.Base.Bits.{bit-lt}
use rvwasm.Cpu.Addr
use rvwasm.Cpu.Hart.{Hart}
use rvwasm.Cpu.Trap.{mpp, delegated, trap, mret, sret}
use rvwasm.Cpu.Trap.Entry.{trap-delegated, trap_undelegated}
use rvwasm.Cpu.Status.{
  mpp-bits, mpp-m_trap_status, mpp-s_trap_status, mpp-mret_status, mpp-sret_status,
}

pub mpp-lt : (st : ℕ) → mpp st < 4
mpp-lt st = omega (arith, mpp-bits st, bit-lt st 11, bit-lt st 12)

module _ {S : Type 0} where
  abbrev pub IsLegal : Hart S → Type 0
  IsLegal h = (h.mode < 4) × (h.mode ≢ 2) × (mpp (h.csr Addr.csr_mstatus) ≢ 2)

  pub trap-IsLegal :
      (h : Hart S) (cause tval : ℕ) (interrupt : Bool)
      → IsLegal h
      → IsLegal (trap h cause tval interrupt)
  trap-IsLegal h cause tval interrupt l = elim (Bool-cases (delegated h cause interrupt)) [
    | inl e ↦
        let t = trap-delegated h cause tval interrupt e in
        ground (arith, t, mpp-s_trap_status h.mode (h.csr Addr.csr_mstatus))
    | inr e ↦
        let t = trap_undelegated h cause tval interrupt e in
        ground (arith, t, mpp-m_trap_status h.mode (h.csr Addr.csr_mstatus))
  ]

  pub mret-IsLegal : (h : Hart S) → IsLegal h → IsLegal (mret h)
  unfolding mret
  mret-IsLegal h l =
      ground (arith, mpp-mret_status (h.csr Addr.csr_mstatus), mpp-lt (h.csr Addr.csr_mstatus))

  pub sret-IsLegal : (h : Hart S) → IsLegal h → IsLegal (sret h)
  unfolding sret
  sret-IsLegal h l = ground (arith, mpp-sret_status (h.csr Addr.csr_mstatus))
