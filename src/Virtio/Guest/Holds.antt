-- ===== src/Virtio/Guest/Holds.antt =====
-- What holds of the result of an action on the guest's memory that did not fail.
use rvwasm.Virtio.Guest.{Answer, ok, err, ChainError, Guest, and_then, fail, pure}

unfoldable pub Holds : {M A : Type 0} → (A → Type 0) → Answer A × M → Type 0
Holds P (ok a, m) = P a
Holds P (err e, m) = Unit

module _ {M A : Type 0} where
  pub fail-Holds : (P : A → Type 0) (e : ChainError) (m : M) → Holds {M = M} P (fail e m)
  unfolding Holds
  fail-Holds P e m = tt

  pub pure-Holds : (P : A → Type 0) (a : A) (m : M) → P a → Holds P (pure a m)
  unfolding Holds
  pure-Holds P a m h = h

pub and_then-Holds :
    {M A B : Type 0} (P : A → Type 0) (Q : B → Type 0) (p : Answer A × M) (f : A → Guest M B)
    → Holds P p
    → ((a : A) (m : M) → P a → Holds Q (f a m))
    → Holds Q (and_then p f)
unfolding Holds and_then
and_then-Holds P Q (ok a, m) f h k = k a m h
and_then-Holds P Q (err e, m) f h k = tt

pub any-Holds : {M A : Type 0} (p : Answer A × M) → Holds (λ _. Unit) p
unfolding Holds
any-Holds (ok a, m) = tt
any-Holds (err e, m) = tt

-- The answer of an action stays when what stands beside it changes.
pub beside-Holds :
    {M N A : Type 0} (P : A → Type 0) (p : Answer A × M) (f : M → N)
    → Holds P p
    → Holds P (p.0, f p.1)
unfolding Holds
beside-Holds P (ok a, m) f h = h
beside-Holds P (err e, m) f h = tt
