-- ===== src/Cpu/Legal/Csr.antt =====
-- Writes of control and status registers (internal/cpu/csr.go) and signals of devices, and the privilege
-- mode and MPP.
use rvwasm.Base.{ℕ, Bool, ◌≢◌, arith, if-keeps}
use rvwasm.Cpu.Addr
use rvwasm.Cpu.Hart.{Hart, trace_csr}
use rvwasm.Cpu.Pmp.{refresh_pmp_active, pmp_set_cfg_csr, pmp_set_addr_csr}
use rvwasm.Cpu.Csr.{csr_write, set_pending}
use rvwasm.Cpu.Status.{mpp-merge_sstatus, mpp-legal_mstatus}
use rvwasm.Cpu.Legal.State.{IsLegal}

module _ {S : Type 0} where
  pub pmp_set_cfg_csr-IsLegal :
      (h : Hart S) (addr val : ℕ)
      → addr ≢ Addr.csr_mstatus
      → IsLegal h
      → IsLegal (pmp_set_cfg_csr h addr val)
  unfolding pmp_set_cfg_csr refresh_pmp_active
  pmp_set_cfg_csr-IsLegal h addr val ne l = ground arith

  pub pmp_set_addr_csr-IsLegal :
      (h : Hart S) (addr val : ℕ)
      → addr ≢ Addr.csr_mstatus
      → IsLegal h
      → IsLegal (pmp_set_addr_csr h addr val)
  unfolding pmp_set_addr_csr
  pmp_set_addr_csr-IsLegal h addr val ne l = ground arith

  -- Whatever is written to whichever register.
  pub csr_write-IsLegal : (h : Hart S) (addr val : ℕ) → IsLegal h → IsLegal (csr_write h addr val)
  unfolding csr_write
  csr_write-IsLegal h addr val l = ground (
    arith,
    pmp_set_cfg_csr-IsLegal h addr val,
    pmp_set_addr_csr-IsLegal h addr val,
    mpp-merge_sstatus (h.csr Addr.csr_mstatus) val,
    mpp-legal_mstatus val,
  )

  -- Devices drive mip alone.
  pub set_pending-IsLegal :
      (h : Hart S) (mask : ℕ) (level : Bool) → IsLegal h → IsLegal (set_pending h mask level)
  unfolding set_pending
  set_pending-IsLegal h mask level l = l

  pub trace_csr-IsLegal :
      (h : Hart S) (addr old val : ℕ) (write : Bool)
      → IsLegal h
      → IsLegal (trace_csr h addr old val write)
  unfolding trace_csr
  trace_csr-IsLegal h addr old val write l = if-keeps IsLegal h.diag.csr_trace l l
