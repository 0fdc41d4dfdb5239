-- ===== src/Dev/Plic/Best.antt =====
-- Which source the controller of internal/dev/plic.go offers and lets a context claim.
use rvwasm.Base.{
  ℕ, zero, suc, ◌+◌, ◌/◌, ◌%◌, ◌≤◌, ◌<◌, ◌⊎◌, inl, inr, ◌≢◌, true, false, ◌≡◌, refl, sym, ◌∙◌,
  subst, arith, ◌==◌, ◌&&◌, ◌||◌, ltb, leb, Bool-cases,
}
use rvwasm.Base.Arrays.{update, update-same}
use rvwasm.Base.Bits.{bit, has-pow}
use rvwasm.Dev.Plic.{Plic, enabled, is_candidate, best_from, best, claim}

-- `id` is offered when it beats every candidate below `m`: by its priority, and at equal priority by
-- its lower number. 0 is offered when there is no candidate.
abbrev IsBestBelow : Plic → ℕ → ℕ → ℕ → ℕ → Type 0
IsBestBelow p ctx m id prio =
    ((id ≡ 0) × (prio ≡ 0) ⊎ (1 ≤ id) × (is_candidate p ctx id ≡ true) × (prio ≡ p.priority id))
    × ((s : ℕ)
        → 1 ≤ s
        → s < m
        → is_candidate p ctx s ≡ true
        → (1 ≤ id) × ((p.priority s < prio) ⊎ (p.priority s ≡ prio) × (id ≤ s)))

-- As `IsBestBelow` for all sources at the end of the loop.
abbrev IsBestCandidate : Plic → ℕ → ℕ → Type 0
IsBestCandidate p ctx id =
    ((id ≡ 0) ⊎ (1 ≤ id) × (is_candidate p ctx id ≡ true))
    × ((s : ℕ)
        → 1 ≤ s
        → s < 64
        → is_candidate p ctx s ≡ true
        → (1 ≤ id) × ((p.priority s < p.priority id) ⊎ (p.priority s ≡ p.priority id) × (id ≤ s)))

-- A source may interrupt a context: it is pending, its bit of the enable words of the context is set,
-- and its priority is above the threshold of the context.
unfoldable pub MayInterrupt : Plic → ℕ → ℕ → Type 0
MayInterrupt p ctx s =
    (p.pending s ≡ true)
    × (bit (p.enable ctx (s / 32)) (s % 32) ≡ 1)
    × (p.threshold ctx < p.priority s)

unfoldable pub IsBest : Plic → ℕ → ℕ → Type 0
IsBest p ctx id =
    ((id ≡ 0) ⊎ (1 ≤ id) × MayInterrupt p ctx id)
    × ((s : ℕ)
        → 1 ≤ s
        → s < 64
        → MayInterrupt p ctx s
        → (1 ≤ id) × ((p.priority s < p.priority id) ⊎ (p.priority s ≡ p.priority id) × (id ≤ s)))

candidate-MayInterrupt : (p : Plic) (ctx s : ℕ) → is_candidate p ctx s ≡ true → MayInterrupt p ctx s
unfolding is_candidate enabled MayInterrupt
candidate-MayInterrupt p ctx s c =
    let e = has-pow (s % 32) (p.enable ctx (s / 32)) in ground (arith, c, e)

MayInterrupt-candidate : (p : Plic) (ctx s : ℕ) → MayInterrupt p ctx s → is_candidate p ctx s ≡ true
unfolding is_candidate enabled MayInterrupt
MayInterrupt-candidate p ctx s (a, b, c) =
    let e = has-pow (s % 32) (p.enable ctx (s / 32)) in ground (arith, a, b, c, e)

candidate-priority : (p : Plic) (ctx s : ℕ) → is_candidate p ctx s ≡ true → 1 ≤ p.priority s
unfolding is_candidate
candidate-priority p ctx s c = ground (arith, c)

below_next :
    (Q : ℕ → Type 0) (m : ℕ)
    → ((s : ℕ) → 1 ≤ s → s < m → Q s)
    → Q m
    → (s : ℕ) → 1 ≤ s
    → s < m + 1
    → Q s
below_next Q m all here s low l = elim (Bool-cases (s == m)) [
  | inl e ↦ subst Q (let f : m ≡ s = ground (arith, e) in f) here
  | inr e ↦ all s low (ground (arith, e, l))
]

-- How the best so far stands to a source.
abbrev Beats : Plic → ℕ → ℕ → ℕ → ℕ → Type 0
Beats p ctx id prio s =
    is_candidate p ctx s ≡ true
    → (1 ≤ id) × ((p.priority s < prio) ⊎ (p.priority s ≡ prio) × (id ≤ s))

-- Source `m` is not taken: it is no candidate or it does not beat the best so far.
keep :
    (p : Plic) (ctx m id prio : ℕ)
    → id < m
    → IsBestBelow p ctx m id prio
    → Beats p ctx id prio m
    → IsBestBelow p ctx (m + 1) id prio
keep p ctx m id prio l (own, all) here = (own, below_next (Beats p ctx id prio) m all here)

-- Source `m` is taken: it has a higher priority, or it is the first candidate.
take :
    (p : Plic) (ctx m id prio : ℕ)
    → 1 ≤ m
    → IsBestBelow p ctx m id prio
    → is_candidate p ctx m ≡ true
    → prio < p.priority m
    → IsBestBelow p ctx (m + 1) m (p.priority m)
take p ctx m id prio low (own, all) c better = (
  inr (low, c, refl),
  below_next (Beats p ctx m (p.priority m)) m
      (λ s a b d. (low, inl (ground (arith, all s a b d, better))))
      (λ _. (low, inr (refl, omega arith))),
)

best_from-IsBestCandidate :
    (p : Plic) (ctx n m id prio : ℕ)
    → 1 ≤ m
    → m + n ≡ 64
    → (id < m)
    → IsBestBelow p ctx m id prio
    → IsBestCandidate p ctx (best_from p ctx n m id prio)
unfolding best_from
best_from-IsBestCandidate p ctx zero m id prio low e l (own, all) =
    (ground (arith, own), λ s a b c. ground (arith, own, all s a (omega (arith, e, b)) c))
best_from-IsBestCandidate p ctx (suc n) m id prio low e l inv =
    elim (Bool-cases (is_candidate p ctx m)) [
      | inl c ↦ elim (Bool-cases (ltb prio (p.priority m))) [
        | inl b ↦
            rw (c, b)
              (best_from-IsBestCandidate p ctx n (m + 1) m (p.priority m) (omega arith)
                (omega arith) (omega arith) (take p ctx m id prio low inv c (ground (arith, b))))
        | inr b ↦
            let stays : (p.priority m == prio) && (id == 0 || ltb m id) ≡ false =
              ground (arith, candidate-priority p ctx m c, b, l, inv.0) in
            rw (c, b, stays)
              (best_from-IsBestCandidate p ctx n (m + 1) id prio (omega arith) (omega arith)
                (omega arith)
                (keep p ctx m id prio l inv
                  (λ _. ground (arith, candidate-priority p ctx m c, b, l, inv.0))))
      ]
      | inr c ↦ rw c (
          best_from-IsBestCandidate p ctx n (m + 1) id prio (omega arith) (omega arith)
            (omega arith) (keep p ctx m id prio l inv (λ d. absurd (ground (arith, c, d)))))
    ]

best-IsBestCandidate : (p : Plic) (ctx : ℕ) → ctx < p.contexts → IsBestCandidate p ctx (best p ctx)
unfolding best
best-IsBestCandidate p ctx c = rw (let e : leb p.contexts ctx ≡ false = ground (arith, c) in e) (
    best_from-IsBestCandidate p ctx 63 1 0 0 (omega arith) refl (omega arith)
      (inl (refl, refl), λ s a b. absurd (omega (arith, a, b))))

-- For a context that exists, the source that the PLIC offers is 0 or one that is pending, whose
-- enable bit for the context is set and whose priority is above the threshold of the context. When
-- there is such a source among 1 to 63 one is offered, and it has the highest priority, and the
-- lowest number among those of that priority.
pub best-IsBest : (p : Plic) (ctx : ℕ) → ctx < p.contexts → IsBest p ctx (best p ctx)
unfolding IsBest
best-IsBest p ctx c =
    let (own, all) = best-IsBestCandidate p ctx c in
    (
      elim own [
        | inl z ↦ inl z
        | inr (low, d) ↦ inr (low, candidate-MayInterrupt p ctx (best p ctx) d)
      ],
      λ s a b m. all s a b (MayInterrupt-candidate p ctx s m),
    )

-- A source that has been claimed is no candidate.
claimed :
    (p : Plic) (ctx id : ℕ)
    → is_candidate (record p { pending = update p.pending id false }) ctx id ≡ false
unfolding is_candidate
claimed p ctx id = rw (update-same p.pending id false) refl

-- Two claims in a row by a context that exists never get the same source: the second gets 0 or
-- another one.
pub claim-claim :
    (p : Plic) (ctx : ℕ)
    → ctx < p.contexts
    → let (id, after, told) = claim p ctx in ((claim after ctx).0 ≡ 0) ⊎ ((claim after ctx).0 ≢ id)
unfolding claim
claim-claim p ctx c = elim (Bool-cases (best p ctx == 0)) [
  | inl e ↦ rw e (inl (ground (arith, e)))
  | inr e ↦
      let after = record p { pending = update p.pending (best p ctx) false } in
      rw e (elim (best-IsBestCandidate after ctx c).0 [
        | inl none_left ↦ inl none_left
        | inr (low, d) ↦ inr λ same. absurd (
            let clash : true ≡ false =
              sym (subst (λ (t : ℕ). is_candidate after ctx t ≡ true) same d)
              ∙ claimed p ctx (best p ctx) in
            ground (arith, clash))
      ])
]
