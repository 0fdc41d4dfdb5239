-- ===== src/Cpu/Access.antt =====
-- The kinds of memory access (`accessKind` of internal/cpu/mmu.go), the ways in which one fails, and
-- accesses as actions on the hart: a failed access leaves the changes that it made before.
use rvwasm.Base.{ℕ, Bool, true, false}
use rvwasm.Cpu.Hart.{Hart}

pub data AccessKind : Type 0 where
  fetch load store : AccessKind

-- `pageFault`, `pmpFault`, and any other error, which comes from the bus or from a size that is
-- no size.
pub data AccessError : Type 0 where
  page_fault : (cause tval : ℕ) → AccessError
  pmp_fault : (kind : AccessKind) (addr : ℕ) → AccessError
  bus_fault : AccessError

abbrev pub is_fetch : AccessKind → Bool
is_fetch AccessKind.fetch = true
is_fetch AccessKind.load = false
is_fetch AccessKind.store = false

abbrev pub is_store : AccessKind → Bool
is_store AccessKind.fetch = false
is_store AccessKind.load = false
is_store AccessKind.store = true

pub data Result (A : Type 0) : Type 0 where
  ok : A → Result A
  err : AccessError → Result A

abbrev pub Action : Type 0 → Type 0 → Type 0
Action S A = Hart S → Result A × Hart S

module _ {S A : Type 0} where
  abbrev pub pure : A → Action S A
  pure a h = (ok a, h)

  abbrev pub fail : AccessError → Action S A
  fail e h = (err e, h)

  -- The errors of `m` become `e`.
  abbrev pub or_fail : Action S A → AccessError → Action S A
  or_fail m e h = let (r, h') = m h in elim r [ ok a ↦ (ok a, h') | err _ ↦ (err e, h') ]

infixl 5 ◌>>=◌ ◌>>◌
abbrev pub ◌>>=◌ : {S A B : Type 0} → Action S A → (A → Action S B) → Action S B
◌>>=◌ m f h = let (r, h') = m h in elim r [ ok a ↦ f a h' | err e ↦ (err e, h') ]

abbrev pub ◌>>◌ : {S A B : Type 0} → Action S A → Action S B → Action S B
m >> k = m >>= λ _. k
