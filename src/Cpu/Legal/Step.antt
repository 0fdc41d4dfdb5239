-- ===== src/Cpu/Legal/Step.antt =====
-- Steps and runs of a hart (internal/cpu/cpu.go), and the privilege mode and MPP.
use rvwasm.Base.{ℕ, ◌<◌, ◌≢◌, arith}
use rvwasm.Cpu.Addr
use rvwasm.Cpu.Hart.{Hart, Platform}
use rvwasm.Cpu.Pmp.{refresh_pmp_active}
use rvwasm.Cpu.Trap.{mpp}
use rvwasm.Cpu.Csr.{init_csr, set_pending}
use rvwasm.Cpu.Step.{step, run, reset}
use rvwasm.Cpu.Invariant.Core.{Core, IsInvariant, HandlerKeeps}
use rvwasm.Cpu.Invariant.Step.{step-keeps, run-keeps}
use rvwasm.Cpu.Legal.State.{IsLegal, trap-IsLegal, mret-IsLegal, sret-IsLegal}
use rvwasm.Cpu.Legal.Csr.{csr_write-IsLegal}

abbrev pub IsLegalCore : Core → Type 0
IsLegalCore c = (c.mode < 4) × (c.mode ≢ 2) × (mpp (c.csr Addr.csr_mstatus) ≢ 2)

module _ {S : Type 0} where
  pub legal_invariant : IsInvariant S IsLegalCore
  unfolding refresh_pmp_active
  legal_invariant = record {
    keeps_pending = λ h mask level l. unfold set_pending in l;
    keeps_refresh = λ h l. l;
    keeps_trap = trap-IsLegal;
    keeps_csr_write = csr_write-IsLegal;
    keeps_mret = mret-IsLegal;
    keeps_sret = sret-IsLegal;
  }

  -- A step keeps the privilege state legal, whatever it does: retire, trap, fault in a fetch, take
  -- an interrupt or wait. An SBI handler, where there is one, is asked to keep it too.
  pub step-IsLegal :
      (p : Platform S)
      → HandlerKeeps IsLegalCore p
      → (h : Hart S) → IsLegal h
      → IsLegal (step p h).0
  step-IsLegal p kept h l = step-keeps IsLegalCore legal_invariant p kept h l

  pub reset-IsLegal : (h : Hart S) (entry dtb : ℕ) → IsLegal (reset h entry dtb)
  unfolding reset init_csr mpp
  reset-IsLegal h entry dtb = ground arith

  -- After any number of steps from a reset, for any bus and any program, the privilege mode is U,
  -- S or M and mstatus.MPP is never the reserved value 2; an SBI handler, where there is one, is
  -- asked to keep this.
  pub run-IsLegal :
      (p : Platform S)
      → HandlerKeeps IsLegalCore p
      → (n : ℕ) (h : Hart S) (entry dtb : ℕ) → IsLegal (run p n (reset h entry dtb)).0
  run-IsLegal p kept n h entry dtb =
      run-keeps IsLegalCore legal_invariant p kept n (reset h entry dtb) (reset-IsLegal h entry dtb)
