-- ===== src/Dev/Clint/Lines.antt =====
-- The interrupt lines that internal/dev/clint.go drives, and its registers.
use rvwasm.Base.{
  ℕ, zero, suc, ◌+◌, ◌^◌, ◌≤◌, ◌<◌, inl, inr, Bool, true, false, ◌≡◌, refl, ap, ◌∙◌, arith, ◌==◌,
  List, [], ◌∷◌, add64, Bool-cases,
}
use rvwasm.Base.Arrays.{update}
use rvwasm.Dev.Clint.{
  Clint, Signal, mip_msip, mip_mtip, soft_level, timer_level, levels_from, any_due, clint_tick,
  told, clint_write, store_register,
}

-- The lines at the harts: the level of a hart's bit of mip.
abbrev pub Levels : Type 0
Levels = ℕ → ℕ → Bool

-- What `SetPending` does to the lines, signal by signal.
unfoldable pub receive : List Signal → Levels → Levels
receive [] lines = lines
receive (s ∷ ss) lines = receive ss (update lines s.hart (update (lines s.hart) s.mask s.level))

-- Every hart's two lines are what the registers say.
abbrev pub IsTracked : Clint → Levels → Type 0
IsTracked c lines =
    (hart : ℕ)
    → hart < c.harts
    → (lines hart mip_msip ≡ soft_level c hart) × (lines hart mip_mtip ≡ timer_level c hart)

-- The loop of `update` leaves the harts before it alone and sets those from it on.
receive-levels :
    (c : Clint) (n from : ℕ) (lines : Levels) (hart : ℕ)
    → let t = receive (levels_from c n from) lines in
      ((hart < from)
        → (t hart mip_msip ≡ lines hart mip_msip) × (t hart mip_mtip ≡ lines hart mip_mtip))
      × (from ≤ hart
          → hart < from + n
          → (t hart mip_msip ≡ soft_level c hart) × (t hart mip_mtip ≡ timer_level c hart))
unfolding receive levels_from
receive-levels c zero from lines hart = (λ _. (refl, refl), λ a b. absurd (omega (arith, a, b)))
receive-levels c (suc n) from lines hart =
    let soft = update lines from (update (lines from) mip_msip (soft_level c from)) in
    let both = update soft from (update (soft from) mip_mtip (timer_level c from)) in
    let (before, later) = receive-levels c n (from + 1) both hart in
    (
      λ l.
          let q = before (omega (arith, l)) in
          let away : from == hart ≡ false = ground (arith, l) in
          (q.0 ∙ rw away refl, q.1 ∙ rw away refl),
      λ a b. elim (Bool-cases (from == hart)) [
        | inl e ↦
            let here : from ≡ hart = ground (arith, e) in
            let q = before (omega (arith, here)) in
            let self : from == from ≡ true = ground arith in
            (q.0 ∙ rw (e, self) (ap (soft_level c) here), q.1 ∙ rw e (ap (timer_level c) here))
        | inr e ↦ later (ground (arith, a, e)) (omega (arith, b))
      ],
    )

-- An `update` makes the lines right, whatever they were.
told-IsTracked : (c : Clint) (lines : Levels) → IsTracked c (receive (told c).1 lines)
told-IsTracked c lines hart h =
    (receive-levels c c.harts 0 lines hart).1 (omega arith) (omega (arith, h))

-- After a write to any address of the CLINT, the software and timer lines of all harts are what
-- its registers say, whatever the lines were before.
pub clint_write-IsTracked :
    (c : Clint) (addr size val : ℕ) (lines : Levels)
    → let (c', signals) = clint_write c addr size val in IsTracked c' (receive signals lines)
unfolding clint_write
clint_write-IsTracked c addr size val lines = told-IsTracked (store_register c addr size val) lines

not_due :
    (c : Clint) (n from hart : ℕ)
    → any_due c n from ≡ false
    → from ≤ hart
    → hart < from + n
    → timer_level c hart ≡ false
unfolding any_due
not_due c zero from hart e a b = absurd (omega (arith, a, b))
not_due c (suc n) from hart e a b = elim (Bool-cases (from == hart)) [
  | inl same ↦ ground (arith, e, same)
  | inr other ↦ ground (arith, e, other, a, b, not_due c n (from + 1) hart)
]

-- If the software and timer lines of all harts are what the registers of the CLINT say, they are
-- so after a tick that does not wrap mtime, though the tick drives them only when some compare is
-- due.
pub tick-IsTracked :
    (c : Clint) (cycles : ℕ) (lines : Levels)
    → c.mtime + cycles < 2 ^ 64
    → IsTracked c lines
    → let (c', signals) = clint_tick c cycles in IsTracked c' (receive signals lines)
unfolding clint_tick receive
tick-IsTracked c cycles lines room q =
    let c' = record c { mtime = add64 c.mtime cycles } in
    elim (Bool-cases (any_due c' c'.harts 0)) [
      | inl e ↦ rw e (told-IsTracked c' lines)
      | inr e ↦ rw e (λ hart h.
          let idle = not_due c' c'.harts 0 hart e (omega arith) (omega (arith, h)) in
          ground (arith, q hart h, idle, room))
    ]
