-- ===== src/Base/Bits.antt =====
-- The bits of a number, and what `&`, `|`, `^` and `&^` do to each of them. `bit n k` is the
-- `(n >> k) & 1` of the source.
pub mod Flags
mod Steps
use Steps.{bit_or_step, bit_and_step, bit_xor_step, differ_digits}
use Prim.Native.Nat.{ℕ, zero, suc, ◌+◌, ◌-◌, ◌*◌, ◌/◌, ◌%◌, ◌^◌, ◌≤◌, ◌<◌, min, max}
use Prim.Native.Nat.{bit_and, bit_or, bit_xor}
use mathlib.Core.Path.{◌≡◌, refl, sym, ap, ◌∙◌}
use native.Mathlib.Omega.{arith}
use native.Mathlib.Nat.{pow-suc, one-le-pow}
use mathlib.Core.Logic.{◌⊎◌, inl, inr}
use rvwasm.Base.Tests.{◌==◌, if◌then◌else◌}
use rvwasm.Base.Words.{and_not, has}

unfoldable pub bit : ℕ → ℕ → ℕ
bit n zero = n % 2
bit n (suc k) = bit (n / 2) k

pub bit-lt : (n k : ℕ) → bit n k < 2
unfolding bit
bit-lt n zero = omega arith
bit-lt n (suc k) = bit-lt (n / 2) k

pub bit-zero : (k : ℕ) → bit 0 k ≡ 0
unfolding bit
bit-zero zero = refl
bit-zero (suc k) = bit-zero k

pub bit-bit_and : (a b k : ℕ) → bit (bit_and a b) k ≡ min (bit a k) (bit b k)
unfolding bit
bit-bit_and a b zero = omega (arith, bit_and_step a b)
bit-bit_and a b (suc k) = ap (λ n. bit n k) halves ∙ bit-bit_and (a / 2) (b / 2) k
  where
    halves : bit_and a b / 2 ≡ bit_and (a / 2) (b / 2)
    halves = omega (arith, bit_and_step a b)

pub bit-bit_or : (a b k : ℕ) → bit (bit_or a b) k ≡ max (bit a k) (bit b k)
unfolding bit
bit-bit_or a b zero = omega (arith, bit_or_step a b)
bit-bit_or a b (suc k) = ap (λ n. bit n k) halves ∙ bit-bit_or (a / 2) (b / 2) k
  where
    halves : bit_or a b / 2 ≡ bit_or (a / 2) (b / 2)
    halves = omega (arith, bit_or_step a b)

pub bit-bit_xor : (a b k : ℕ) → bit (bit_xor a b) k ≡ (bit a k + bit b k) % 2
unfolding bit
bit-bit_xor a b zero =
    omega (arith, bit_xor_step a b, differ_digits (a % 2) (b % 2) (omega arith) (omega arith))
bit-bit_xor a b (suc k) = ap (λ n. bit n k) halves ∙ bit-bit_xor (a / 2) (b / 2) k
  where
    halves : bit_xor a b / 2 ≡ bit_xor (a / 2) (b / 2)
    halves =
        omega (arith, bit_xor_step a b, differ_digits (a % 2) (b % 2) (omega arith) (omega arith))

-- `a &^ b` keeps the bits of `a` that `b` has not.
pub bit-and_not : (a b k : ℕ) → bit (and_not a b) k ≡ bit a k - bit b k
bit-and_not a b k =
    omega (arith, bit-bit_xor a (bit_and a b) k, bit-bit_and a b k, bit-lt a k, bit-lt b k)

-- Numbers with the same bits are the same.
bits_ext_fuel : (n a b : ℕ) → a ≤ n → b ≤ n → ((k : ℕ) → bit a k ≡ bit b k) → a ≡ b
unfolding bit
bits_ext_fuel zero a b p q h = omega arith
bits_ext_fuel (suc n) zero zero p q h = refl
bits_ext_fuel (suc n) zero (suc b) p q h =
    omega (arith, h 0, bits_ext_fuel n 0 (suc b / 2) (omega arith) (omega arith) (λ k. h (suc k)))
bits_ext_fuel (suc n) (suc a) zero p q h =
    omega (arith, h 0, bits_ext_fuel n (suc a / 2) 0 (omega arith) (omega arith) (λ k. h (suc k)))
bits_ext_fuel (suc n) (suc a) (suc b) p q h = omega (
  arith,
  h 0,
  bits_ext_fuel n (suc a / 2) (suc b / 2) (omega arith) (omega arith) (λ k. h (suc k)),
)

pub bits_ext : (a b : ℕ) → ((k : ℕ) → bit a k ≡ bit b k) → a ≡ b
bits_ext a b h = bits_ext_fuel (a + b) a b (omega arith) (omega arith) h

-- `&` is at most its first argument, and the other operations stay within its width.
bit_and-le_fuel : (n a b : ℕ) → a ≤ n → bit_and a b ≤ a
bit_and-le_fuel n zero b p = omega (arith, bit_and_step 0 b, bit_and-zero_left b)
  where
    bit_and-zero_left : (b : ℕ) → bit_and 0 b ≡ 0
    bit_and-zero_left b = bits_ext (bit_and 0 b) 0 λ k. omega (arith, bit-bit_and 0 b k, bit-zero k)
bit_and-le_fuel zero (suc a) b p = absurd (omega arith)
bit_and-le_fuel (suc n) (suc a) b p =
    omega (arith, bit_and_step (suc a) b, bit_and-le_fuel n (suc a / 2) (b / 2) (omega arith))

pub bit_and-le : (a b : ℕ) → bit_and a b ≤ a
bit_and-le a b = bit_and-le_fuel a a b (omega arith)

pub bit_and_comm : (a b : ℕ) → bit_and a b ≡ bit_and b a
bit_and_comm a b =
    bits_ext (bit_and a b) (bit_and b a) λ k. omega (arith, bit-bit_and a b k, bit-bit_and b a k)

pub bit_or-lt : (w a b : ℕ) → a < 2 ^ w → b < 2 ^ w → bit_or a b < 2 ^ w
bit_or-lt zero zero zero p q = omega arith
bit_or-lt zero zero (suc b) p q = absurd (omega arith)
bit_or-lt zero (suc a) b p q = absurd (omega arith)
bit_or-lt (suc w) a b p q =
    let e = pow-suc 2 w in
    omega (arith, bit_or_step a b, bit_or-lt w (a / 2) (b / 2) (omega arith) (omega arith))

pub bit_xor-lt : (w a b : ℕ) → a < 2 ^ w → b < 2 ^ w → bit_xor a b < 2 ^ w
bit_xor-lt zero zero zero p q = omega arith
bit_xor-lt zero zero (suc b) p q = absurd (omega arith)
bit_xor-lt zero (suc a) b p q = absurd (omega arith)
bit_xor-lt (suc w) a b p q =
    let e = pow-suc 2 w in
    let d = differ_digits (a % 2) (b % 2) (omega arith) (omega arith) in
    omega (arith, bit_xor_step a b, bit_xor-lt w (a / 2) (b / 2) (omega arith) (omega arith))

pub and_not-lt : (w a b : ℕ) → a < 2 ^ w → and_not a b < 2 ^ w
and_not-lt w a b p = bit_xor-lt w a (bit_and a b) p (omega (arith, bit_and-le a b))

-- A mask of one bit.
bit_and-zero_right : (n : ℕ) → bit_and n 0 ≡ 0
bit_and-zero_right n = bits_ext (bit_and n 0) 0 λ k. omega (arith, bit-bit_and n 0 k, bit-zero k)

pub bit_and_pow : (k n : ℕ) → bit_and n (2 ^ k) ≡ 2 ^ k * bit n k
unfolding bit
bit_and_pow zero n = omega (arith, bit_and_step n 1, bit_and-zero_right (n / 2))
bit_and_pow (suc k) n =
    let halved : 2 ^ suc k / 2 ≡ 2 ^ k = omega (arith, pow-suc 2 k) in
    let even : 2 ^ suc k % 2 ≡ 0 = omega (arith, pow-suc 2 k) in
    let doubled : 2 ^ suc k * bit (n / 2) k ≡ 2 * (2 ^ k * bit (n / 2) k) =
      omega (arith, ap (λ (t : ℕ). t * bit (n / 2) k) (pow-suc 2 k)) in
    omega
      (arith, bit_and_step n (2 ^ suc k), ap (λ t. bit_and (n / 2) t) halved, bit_and_pow k (n / 2))

-- A power of two has one bit.
pub bit-pow : (j k : ℕ) → bit (2 ^ j) k ≡ (if k == j then 1 else 0)
unfolding bit
bit-pow zero zero = refl
bit-pow zero (suc k) = ground (arith, bit-zero k)
bit-pow (suc j) zero = ground (arith, pow-suc 2 j)
bit-pow (suc j) (suc k) =
    let halved : 2 ^ suc j / 2 ≡ 2 ^ j = omega (arith, pow-suc 2 j) in
    ap (λ t. bit t k) halved ∙ bit-pow j k ∙ shift
  where
    shift : (if◌then◌else◌ {A = ℕ} (k == j) 1 0) ≡ (if suc k == suc j then 1 else 0)
    shift = ground arith

pub bit-cases : (n k : ℕ) → (bit n k ≡ 0) ⊎ (bit n k ≡ 1)
bit-cases n k = omega (arith, bit-lt n k)

-- Go's test of one bit.
pub has-pow : (k n : ℕ) → has n (2 ^ k) ≡ (bit n k == 1)
has-pow k n = elim (bit-cases n k) [
  | inl e ↦ rw (bit_and_pow k n, e) (ground (arith, one-le-pow k 2))
  | inr e ↦ rw (bit_and_pow k n, e) (ground (arith, one-le-pow k 2))
]

unfoldable pub halves : ℕ → ℕ → ℕ
halves n zero = n
halves n (suc k) = halves (n / 2) k

-- A mask that starts at bit `k` is one on the number shifted down to there.
pub bit_and_shifted : (k n m : ℕ) → bit_and n (m * 2 ^ k) ≡ bit_and (halves n k) m * 2 ^ k
unfolding halves
bit_and_shifted zero n m = ap (λ (t : ℕ). bit_and n t) one ∙ sym (times_one (bit_and n m))
  where
    one : m * 2 ^ 0 ≡ m
    one = omega arith

    times_one : (x : ℕ) → x * 2 ^ 0 ≡ x
    times_one x = omega arith
bit_and_shifted (suc k) n m =
    let c = bit_and (halves (n / 2) k) m in
    let doubled : m * 2 ^ suc k ≡ 2 * (m * 2 ^ k) =
      omega (arith, ap (λ (t : ℕ). m * t) (pow-suc 2 k)) in
    let half : m * 2 ^ suc k / 2 ≡ m * 2 ^ k = omega arith in
    let doubled' : c * 2 ^ suc k ≡ 2 * (c * 2 ^ k) =
      omega (arith, ap (λ (t : ℕ). c * t) (pow-suc 2 k)) in
    omega (
      arith,
      bit_and_step n (m * 2 ^ suc k),
      ap (λ (t : ℕ). bit_and (n / 2) t) half,
      bit_and_shifted k (n / 2) m,
    )

pub bit-halves : (k j n : ℕ) → bit (halves n k) j ≡ bit n (j + k)
unfolding bit halves
bit-halves zero j n = ap (λ t. bit n t) (let e : j ≡ j + 0 = omega arith in e)
bit-halves (suc k) j n =
    bit-halves k j (n / 2) ∙ ap (λ t. bit n t) (let e : suc (j + k) ≡ j + suc k = omega arith in e)

-- A field of two bits.
pub two_bits : (k n : ℕ) → bit_and n (3 * 2 ^ k) ≡ (bit n k + 2 * bit n (k + 1)) * 2 ^ k
unfolding bit
two_bits k n = bit_and_shifted k n 3 ∙ ap (λ (t : ℕ). t * 2 ^ k) low_two
  where
    low_two : bit_and (halves n k) 3 ≡ bit n k + 2 * bit n (k + 1)
    low_two =
        let x = halves n k in
        let first : bit x 0 ≡ bit n k =
          bit-halves k 0 n ∙ ap (λ t. bit n t) (let e : 0 + k ≡ k = omega arith in e) in
        let second : bit x 1 ≡ bit n (k + 1) =
          bit-halves k 1 n ∙ ap (λ t. bit n t) (let e : 1 + k ≡ k + 1 = omega arith in e) in
        omega (arith, bit_and_step x 3, bit_and_step (x / 2) 1, bit_and-zero_right (x / 2 / 2))

bit_or_zero_left : (n : ℕ) → bit_or 0 n ≡ n
bit_or_zero_left n = bits_ext (bit_or 0 n) n λ k. omega (arith, bit-bit_or 0 n k, bit-zero k)

-- `|` of a number below `2^k` and a multiple of it is their sum.
pub bit_or-disjoint : (k a b : ℕ) → a < 2 ^ k → bit_or a (b * 2 ^ k) ≡ a + b * 2 ^ k
bit_or-disjoint zero zero b p = omega (arith, bit_or_zero_left (b * 2 ^ 0))
bit_or-disjoint zero (suc a) b p = absurd (omega arith)
bit_or-disjoint (suc k) a b p =
    let doubled : b * 2 ^ suc k ≡ 2 * (b * 2 ^ k) =
      omega (arith, ap (λ (t : ℕ). b * t) (pow-suc 2 k)) in
    let half : b * 2 ^ suc k / 2 ≡ b * 2 ^ k = omega arith in
    omega (
      arith,
      pow-suc 2 k,
      bit_or_step a (b * 2 ^ suc k),
      ap (λ (t : ℕ). bit_or (a / 2) t) half,
      bit_or-disjoint k (a / 2) b (omega (arith, pow-suc 2 k)),
    )
