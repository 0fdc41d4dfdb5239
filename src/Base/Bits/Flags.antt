-- ===== src/Base/Bits/Flags.antt =====
-- One flag of a word after another was set or cleared.
use Prim.Native.Nat.{ℕ, ◌^◌, bit_or}
use mathlib.Core.Path.{◌≡◌}
use mathlib.Core.Logic.{◌≢◌}
use mathlib.Core.Bool.{true, false}
use native.Mathlib.Omega.{arith}
use rvwasm.Base.Words.{and_not, has}
use rvwasm.Base.Bits.{bit-and_not, bit-bit_or, bit-pow, bit-lt, has-pow}

pub has-and_not_same : (k a : ℕ) → has (and_not a (2 ^ k)) (2 ^ k) ≡ false
has-and_not_same k a =
    rw (has-pow k (and_not a (2 ^ k)), bit-and_not a (2 ^ k) k, bit-pow k k)
      (ground (arith, bit-lt a k))

pub has-and_not_other : (j k a : ℕ) → j ≢ k → has (and_not a (2 ^ k)) (2 ^ j) ≡ has a (2 ^ j)
has-and_not_other j k a n =
    rw (has-pow j (and_not a (2 ^ k)), has-pow j a, bit-and_not a (2 ^ k) j, bit-pow k j)
      (ground arith)

pub has-bit_or_same : (k a : ℕ) → has (bit_or a (2 ^ k)) (2 ^ k) ≡ true
has-bit_or_same k a =
    rw (has-pow k (bit_or a (2 ^ k)), bit-bit_or a (2 ^ k) k, bit-pow k k)
      (ground (arith, bit-lt a k))

pub has-bit_or_other : (j k a : ℕ) → j ≢ k → has (bit_or a (2 ^ k)) (2 ^ j) ≡ has a (2 ^ j)
has-bit_or_other j k a n =
    rw (has-pow j (bit_or a (2 ^ k)), has-pow j a, bit-bit_or a (2 ^ k) j, bit-pow k j)
      (ground arith)
