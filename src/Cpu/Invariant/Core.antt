-- ===== src/Cpu/Invariant/Core.antt =====
-- The privileged state and what an invariant of it has to meet.
use rvwasm.Base.{ℕ, Bool, List, ◌≡◌, Option, none, some, sym, ap, subst, ◌∙◌}
use rvwasm.Cpu.Hart.{Hart, Platform}
use rvwasm.Cpu.Csr.{set_pending, csr_write}
use rvwasm.Cpu.Pmp.{refresh_pmp_active}
use rvwasm.Cpu.Trap.{trap, mret, sret}

pub record Core : Type 0 where
  pub mode : ℕ
  pub csr : ℕ → ℕ
  pub pmp_active : Bool
  pub pmp_checked : Bool

module _ {S : Type 0} where
  abbrev pub core : Hart S → Core
  core h = record {
    mode = h.mode;
    csr = h.csr;
    pmp_active = h.pmp_active;
    pmp_checked = h.pmp_checked;
  }

  -- The invariant as a property of harts.
  abbrev pub On : (Core → Type 0) → Hart S → Type 0
  On P h = P (core h)

-- `S` is the state of the bus.
pub record IsInvariant (S : Type 0) (P : Core → Type 0) : Type 0 where
  pub keeps_pending :
      (h : Hart S) (mask : ℕ) (level : Bool) → On P h → On P (set_pending h mask level)
  pub keeps_refresh : (h : Hart S) → On P h → On P (refresh_pmp_active h)
  pub keeps_trap :
      (h : Hart S) (cause tval : ℕ) (interrupt : Bool) → On P h → On P (trap h cause tval interrupt)
  pub keeps_csr_write : (h : Hart S) (addr val : ℕ) → On P h → On P (csr_write h addr val)
  pub keeps_mret : (h : Hart S) → On P h → On P (mret h)
  pub keeps_sret : (h : Hart S) → On P h → On P (sret h)

-- What is asked of an SBI handler, where there is one.
abbrev pub HandlerKeeps : {S : Type 0} → (Core → Type 0) → Platform S → Type 0
HandlerKeeps {S} P p =
    (handler : Hart S → ℕ → ℕ → List ℕ → Bool × ℕ × ℕ × Hart S)
    → p.handler ≡ some handler
    → (h : Hart S) (ext fn : ℕ) (args : List ℕ) → On P h
    → On P (handler h ext fn args).3

-- It is enough to look at the handler that there is.
pub one_handler-keeps :
    {S : Type 0} (P : Core → Type 0) (p : Platform S)
    (g : Hart S → ℕ → ℕ → List ℕ → Bool × ℕ × ℕ × Hart S)
    → p.handler ≡ some g
    → ((h : Hart S) (ext fn : ℕ) (args : List ℕ) → On P h → On P (g h ext fn args).3)
    → HandlerKeeps P p
one_handler-keeps {S} P p g e keeps f e' h ext fn args q =
    subst (λ (t : Hart S → ℕ → ℕ → List ℕ → Bool × ℕ × ℕ × Hart S). On P (t h ext fn args).3)
      (ap or_g (sym e ∙ e')) (keeps h ext fn args q)
  where
    or_g :
        Option (Hart S → ℕ → ℕ → List ℕ → Bool × ℕ × ℕ × Hart S)
        → Hart S
        → ℕ
        → ℕ
        → List ℕ
        → Bool × ℕ × ℕ × Hart S
    or_g none = g
    or_g (some t) = t
