-- ===== src/Boot/Fdt/Reader.antt =====
-- A reader of the structure block, as the device tree specification lays it out, to compare the builder
-- of internal/boot/fdt.go with.
use rvwasm.Base.{
  ℕ, zero, suc, ◌+◌, ◌*◌, ◌%◌, ◌-◌, ◌^◌, ◌<◌, ◌≡◌, ◌≢◌, refl, ap, arith, List, [], ◌∷◌, ◌++◌,
  Option, none, some, ◌==◌, if◌then◌else◌, u8, ◌>>>◌,
}
use rvwasm.Base.Arrays.{length, take, drop}
use rvwasm.Boot.Fdt.{Event, be32}

unfoldable pub get32 : List ℕ → Option (ℕ × List ℕ)
get32 (a ∷ b ∷ c ∷ d ∷ rest) = some (((a * 256 + b) * 256 + c) * 256 + d, rest)
get32 bs = none

-- The bytes before the first 0 and those after it.
unfoldable pub c_string : List ℕ → List ℕ × List ℕ
c_string [] = ([], [])
c_string (zero ∷ bs) = ([], bs)
c_string (suc n ∷ bs) = let (s, rest) = c_string bs in (suc n ∷ s, rest)

-- The padding after `n` bytes.
abbrev pub gap : ℕ → ℕ
gap n = (4 - n % 4) % 4

unfoldable pub on_off : List ℕ → ℕ → Option (ℕ × List ℕ) → Option (Event × List ℕ)
on_off strings len none = none
on_off strings len (some (off, bs)) =
    some (Event.property (c_string (drop off strings)).0 (take len bs), drop (len + gap len) bs)

unfoldable pub on_len : List ℕ → Option (ℕ × List ℕ) → Option (Event × List ℕ)
on_len strings none = none
on_len strings (some (len, bs)) = on_off strings len (get32 bs)

unfoldable pub on_token : List ℕ → Option (ℕ × List ℕ) → Option (Event × List ℕ)
on_token strings none = none
on_token strings (some (t, bs)) =
    if t == 1
    then (let (name, rest) = c_string bs in
        some (Event.begun name, drop (gap (length name + 1)) rest))
    else if t == 2
    then some (Event.ended, bs)
    else if t == 3
    then on_len strings (get32 bs)
    else none

unfoldable pub read_event : List ℕ → List ℕ → Option (Event × List ℕ)
read_event strings bs = on_token strings (get32 bs)

unfoldable pub and_rest : (List ℕ → List Event) → Option (Event × List ℕ) → List Event
and_rest next none = []
and_rest next (some (e, rest)) = e ∷ next rest

-- The first `n` events.
unfoldable pub read_events : ℕ → List ℕ → List ℕ → List Event
read_events zero strings bs = []
read_events (suc n) strings bs = and_rest (read_events n strings) (read_event strings bs)

pub get32-be32 : (v : ℕ) (rest : List ℕ) → v < 2 ^ 32 → get32 (be32 v ++ rest) ≡ some (v, rest)
unfolding get32 be32
get32-be32 v rest h =
    ap (λ (t : ℕ). some (t, rest))
      (let e : ((u8 (v >>> 24) * 256 + u8 (v >>> 16)) * 256 + u8 (v >>> 8)) * 256 + u8 v ≡ v =
          omega arith in
        e)

-- No byte is 0.
unfoldable pub IsText : List ℕ → Type 0
IsText [] = Unit
IsText (c ∷ cs) = (c ≢ 0) × IsText cs

pub c_string-text : (s rest : List ℕ) → IsText s → c_string (s ++ 0 ∷ rest) ≡ (s, rest)
unfolding c_string IsText
c_string-text [] rest h = refl
c_string-text (zero ∷ s) rest (n, h) = absurd (n refl)
c_string-text (suc c ∷ s) rest (n, h) =
    ap (λ (p : List ℕ × List ℕ). (suc c ∷ p.0, p.1)) (c_string-text s rest h)
