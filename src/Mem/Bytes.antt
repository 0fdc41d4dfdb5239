-- ===== src/Mem/Bytes.antt =====
-- Little-endian numbers in an array of bytes, as Go's encoding/binary reads and writes them for
-- internal/mem/bus.go and internal/dev/clint.go.
use rvwasm.Base.{
  ℕ, zero, suc, ◌+◌, ◌*◌, ◌/◌, ◌%◌, ◌^◌, ◌<◌, ◌≤◌, ◌⊎◌, ◌≡◌, refl, sym, ap, ◌∙◌, arith,
}
use native.Mathlib.Nat.{
  one-le-pow, pow-suc, add-mul-mod_self_left, mul_assoc, mod-add-div, mod-eq_of_lt, mod-lt,
}
use rvwasm.Base.Arrays.{update, update-same, update-ne}

-- The number in the `n` bytes from `off` on.
unfoldable pub get_le : (ℕ → ℕ) → ℕ → ℕ → ℕ
get_le mem off zero = 0
get_le mem off (suc n) = mem off + 256 * get_le mem (off + 1) n

-- The low `n` bytes of `val` stored from `off` on.
unfoldable pub put_le : (ℕ → ℕ) → ℕ → ℕ → ℕ → ℕ → ℕ
put_le mem off zero val = mem
put_le mem off (suc n) val = put_le (update mem off (val % 256)) (off + 1) n (val / 256)

-- One digit to the base of 256.
mod_digit : (val n : ℕ) → val % 256 ^ suc n ≡ val % 256 + 256 * (val / 256 % 256 ^ n)
mod_digit val n =
    let p : ℕ = 256 ^ n in
    let q = val / 256 in
    let r = q % p in
    let some_left : 1 ≤ p = one-le-pow n 256 (omega arith) in
    let split : q ≡ r + p * (q / p) = sym (mod-add-div q p) in
    let scaled : 256 * (p * (q / p)) ≡ 256 * p * (q / p) = sym (mul_assoc 256 p (q / p)) in
    let whole : val ≡ val % 256 + 256 * r + 256 * p * (q / p) = omega arith in
    ap (λ (t : ℕ). val % t) (let e : 256 ^ suc n ≡ 256 * p = omega (arith, pow-suc 256 n) in e)
    ∙ ap (λ (t : ℕ). t % (256 * p)) whole
    ∙ add-mul-mod_self_left (val % 256 + 256 * r) (256 * p) (q / p)
    ∙ mod-eq_of_lt (omega (arith, mod-lt q some_left))

-- A byte outside the range that is written.
pub put_le-outside :
    (mem : ℕ → ℕ) (off n val a : ℕ) → (a < off) ⊎ (off + n ≤ a) → put_le mem off n val a ≡ mem a
unfolding put_le
put_le-outside mem off zero val a h = refl
put_le-outside mem off (suc n) val a h = ground (
  arith,
  put_le-outside (update mem off (val % 256)) (off + 1) n (val / 256) a (omega arith),
  update-ne mem off a (val % 256) (omega arith),
)

-- A number that is read off a range depends on that range only.
pub get_le-agree :
    (m m' : ℕ → ℕ) (off n : ℕ)
    → ((a : ℕ) → off ≤ a → a < off + n → m a ≡ m' a)
    → get_le m off n ≡ get_le m' off n
unfolding get_le
get_le-agree m m' off zero h = refl
get_le-agree m m' off (suc n) h = omega (
  arith,
  h off (omega arith) (omega arith),
  get_le-agree m m' (off + 1) n (λ a p q. h a (omega arith) (omega arith)),
)

pub get_le-put_le :
    (mem : ℕ → ℕ) (off n val : ℕ) → get_le (put_le mem off n val) off n ≡ val % 256 ^ n
unfolding get_le put_le
get_le-put_le mem off zero val = omega arith
get_le-put_le mem off (suc n) val =
    let mem' = update mem off (val % 256) in
    omega (
      arith,
      put_le-outside mem' (off + 1) n (val / 256) off (omega arith),
      update-same mem off (val % 256),
      get_le-put_le mem' (off + 1) n (val / 256),
      mod_digit val n,
    )
