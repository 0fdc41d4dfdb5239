-- ===== src/Virtio/Queue/Ends.antt =====
-- The loops over a queue (`processQueue` and `processTx` in internal/dev/virtio_*.go) as loops with
-- rounds.
use rvwasm.Base.{ℕ, zero, suc, ◌<◌, ◌≡◌, refl, arith}
use rvwasm.Virtio.Queue.{Round, Run, rounds, go_on}

-- `P` holds of the state with which a loop goes on, `Z` when it stops or panics.
unfoldable pub Continues : {S : Type 0} → Type 0 → (S → Type 0) → Round S → Type 0
Continues Z P (Round.again s) = P s
Continues Z P (Round.stopped s) = Z
Continues Z P Round.panicked = Z

-- The loop ended: it ran to its end, or into a panic.
unfoldable pub Ended : {S : Type 0} → Run S → Type 0
Ended (Run.finished s) = Unit
Ended Run.crashed = Unit
Ended (Run.unfinished s) = ⊥

unfoldable pub Unended : {S : Type 0} → Run S → Type 0
Unended (Run.finished s) = ⊥
Unended Run.crashed = ⊥
Unended (Run.unfinished s) = Unit

go_on-Ended :
    {S : Type 0} (rest : S → Run S) (r : Round S)
    → Continues Unit (λ s. Ended (rest s)) r
    → Ended (go_on rest r)
unfolding go_on Continues Ended
go_on-Ended rest (Round.again s) h = h
go_on-Ended rest (Round.stopped s) h = tt
go_on-Ended rest Round.panicked h = tt

go_on-Unended :
    {S : Type 0} (rest : S → Run S) (r : Round S)
    → Continues ⊥ (λ s. Unended (rest s)) r
    → Unended (go_on rest r)
unfolding go_on Continues Unended
go_on-Unended rest (Round.again s) h = h
go_on-Unended rest (Round.stopped s) h = absurd h
go_on-Unended rest Round.panicked h = absurd h

pub Continues-map :
    {S : Type 0} (Z : Type 0) {P Q : S → Type 0} (r : Round S)
    → ((s : S) → P s → Q s)
    → Continues Z P r
    → Continues Z Q r
unfolding Continues
Continues-map Z (Round.again s) f h = f s h
Continues-map Z (Round.stopped s) f h = h
Continues-map Z Round.panicked f h = h

-- What a round that goes on keeps.
unfoldable pub IsKept : {S : Type 0} → (S → Type 0) → (S → Round S) → Type 0
IsKept {S} K step = (s s' : S) → K s → step s ≡ Round.again s' → K s'

pub Continues-and :
    {S : Type 0} (Z : Type 0) (P Q : S → Type 0) (r : Round S)
    → ((s : S) → r ≡ Round.again s → Q s)
    → Continues Z P r
    → Continues Z (λ s. P s × Q s) r
unfolding Continues
Continues-and Z P Q (Round.again s) f h = (h, f s refl)
Continues-and Z P Q (Round.stopped s) f h = h
Continues-and Z P Q Round.panicked f h = h

-- A loop whose rounds go on below a measure only ends within that many rounds and one.
pub rounds-Ended :
    {S : Type 0} (step : S → Round S) (I : S → Type 0) (measure : S → ℕ)
    → ((s : S) → I s → Continues Unit (λ s'. I s' × (measure s' < measure s)) (step s))
    → (n : ℕ) (s : S) → I s
    → measure s < n
    → Ended (rounds step n s)
unfolding rounds
rounds-Ended step I measure keep zero s h b = absurd (omega arith)
rounds-Ended step I measure keep (suc n) s h b = go_on-Ended (rounds step n) (step s) (
    Continues-map Unit (step s)
      (λ s' p. let (h', b') = p in rounds-Ended step I measure keep n s' h' (omega arith))
      (keep s h))

-- A loop whose rounds always go on does not end.
pub rounds-Unended :
    {S : Type 0} (step : S → Round S) (I : S → Type 0)
    → ((s : S) → I s → Continues ⊥ I (step s))
    → (n : ℕ) (s : S) → I s
    → Unended (rounds step n s)
unfolding rounds Unended
rounds-Unended step I keep zero s h = tt
rounds-Unended step I keep (suc n) s h =
    go_on-Unended (rounds step n) (step s)
      (Continues-map ⊥ (step s) (λ s' h'. rounds-Unended step I keep n s' h') (keep s h))
