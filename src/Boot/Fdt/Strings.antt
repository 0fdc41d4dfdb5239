-- ===== src/Boot/Fdt/Strings.antt =====
-- The strings block of a device tree (`nameOff` in internal/boot/fdt.go) and the offsets in its map.
use mathlib.Core.List.{append_assoc, append-nil}
use rvwasm.Base.{
  ℕ, ◌+◌, ◌^◌, ◌≤◌, ◌<◌, ◌≡◌, refl, sym, ap, ap₂, ◌∙◌, subst, arith, true, Bool-cases, inl, inr,
  List, [], ◌∷◌, ◌++◌, Option, none, some, u32,
}
use rvwasm.Base.Arrays.{length, drop, drop-++, length-++}
use rvwasm.Boot.Fdt.{FdtBuilder, same_bytes, find_name, on_name, name_off}
use rvwasm.Boot.Fdt.Reader.{c_string, IsText, c_string-text}

-- `name` and a 0 stand at an offset.
unfoldable pub IsNamed : List ℕ → ℕ → List ℕ → Type 0
IsNamed s off name =
    (pre : List ℕ) × (post : List ℕ) × (s ≡ pre ++ (name ++ 0 ∷ post)) × (length pre ≡ off)

pub IsNamed-++ :
    (s t : List ℕ) (off : ℕ) (name : List ℕ) → IsNamed s off name → IsNamed (s ++ t) off name
unfolding IsNamed
IsNamed-++ s t off name (pre, post, e, l) = (
  pre,
  post ++ t,
  ap (λ (x : List ℕ). x ++ t) e
      ∙ append_assoc pre (name ++ 0 ∷ post) t
      ∙ ap (λ (x : List ℕ). pre ++ x) (append_assoc name (0 ∷ post) t),
  l,
)

pub IsNamed-read :
    (s : List ℕ) (off : ℕ) (name : List ℕ)
    → IsText name
    → IsNamed s off name
    → (c_string (drop off s)).0 ≡ name
unfolding IsNamed
IsNamed-read s off name text (pre, post, e, l) =
    let at : drop off (pre ++ (name ++ 0 ∷ post)) ≡ name ++ 0 ∷ post =
      subst (λ (n : ℕ). drop n (pre ++ (name ++ 0 ∷ post)) ≡ name ++ 0 ∷ post) l
        (drop-++ pre (name ++ 0 ∷ post)) in
    ap (λ (x : List ℕ). (c_string (drop off x)).0) e
    ∙ ap (λ (x : List ℕ). (c_string x).0) at
    ∙ ap (λ (p : List ℕ × List ℕ). p.0) (c_string-text name post text)

pub IsNamed-le : (s : List ℕ) (off : ℕ) (name : List ℕ) → IsNamed s off name → off ≤ length s
unfolding IsNamed
IsNamed-le s off name (pre, post, e, l) =
    let size : length s ≡ length pre + length (name ++ 0 ∷ post) =
      ap length e ∙ length-++ pre (name ++ 0 ∷ post) in
    omega arith

unfoldable pub AreNamed : List ℕ → List (List ℕ × ℕ) → Type 0
AreNamed s [] = Unit
AreNamed s ((name, off) ∷ offs) = IsNamed s off name × AreNamed s offs

AreNamed-++ : (s t : List ℕ) (offs : List (List ℕ × ℕ)) → AreNamed s offs → AreNamed (s ++ t) offs
unfolding AreNamed
AreNamed-++ s t [] h = tt
AreNamed-++ s t ((name, off) ∷ offs) (n, h) = (IsNamed-++ s t off name n, AreNamed-++ s t offs h)

same_bytes-eq : (xs ys : List ℕ) → same_bytes xs ys ≡ true → xs ≡ ys
unfolding same_bytes
same_bytes-eq [] [] h = refl
same_bytes-eq [] (y ∷ ys) h = absurd (ground (arith, h))
same_bytes-eq (x ∷ xs) [] h = absurd (ground (arith, h))
same_bytes-eq (x ∷ xs) (y ∷ ys) h =
    let first : x ≡ y = ground (arith, h) in
    let rest : same_bytes xs ys ≡ true = ground (arith, h) in
    ap₂ (λ (c : ℕ) (cs : List ℕ). c ∷ cs) first (same_bytes-eq xs ys rest)

find_name-IsNamed :
    (s name : List ℕ) (offs : List (List ℕ × ℕ)) (off : ℕ)
    → AreNamed s offs
    → find_name name offs ≡ some off
    → IsNamed s off name
unfolding find_name AreNamed
find_name-IsNamed s name [] off h e = absurd (ground (arith, e))
find_name-IsNamed s name ((known, o) ∷ offs) off (n, h) e =
    elim (Bool-cases (same_bytes known name)) [
      | inl t ↦
          let same = same_bytes-eq known name t in
          let here : o ≡ off = ground (arith, e, t) in
          subst (λ (k : ℕ). IsNamed s k name) here (subst (λ (x : List ℕ). IsNamed s o x) same n)
      | inr t ↦ find_name-IsNamed s name offs off h (ground (arith, e, t))
    ]

-- After a name is looked up or added: the block has grown at its end, the offset is that of the name,
-- and the map is right as before.
unfoldable pub Names : List ℕ → FdtBuilder → ℕ × FdtBuilder → Type 0
Names name b (off, b') =
    (more : List ℕ) × (b'.strings ≡ b.strings ++ more)
    × (b'.struct_block ≡ b.struct_block)
    × IsNamed b'.strings off name
    × AreNamed b'.strings b'.str_off

on_name-Names :
    (name : List ℕ) (b : FdtBuilder) (o : Option ℕ)
    → length b.strings < 2 ^ 32
    → AreNamed b.strings b.str_off
    → find_name name b.str_off ≡ o
    → Names name b (on_name name b o)
unfolding on_name Names AreNamed IsNamed
on_name-Names name b (some off) small h e =
    ([], sym (append-nil b.strings), refl, find_name-IsNamed b.strings name b.str_off off h e, h)
on_name-Names name b none small h e =
    let here : IsNamed (b.strings ++ (name ++ 0 ∷ [])) (u32 (length b.strings)) name =
      (b.strings, [], refl, omega arith) in
    (name ++ 0 ∷ [], refl, refl, here, (here, AreNamed-++ b.strings (name ++ 0 ∷ []) b.str_off h))

pub name_off-Names :
    (name : List ℕ) (b : FdtBuilder)
    → length b.strings < 2 ^ 32
    → AreNamed b.strings b.str_off
    → Names name b (name_off name b)
unfolding name_off
name_off-Names name b small h = on_name-Names name b _ small h refl

on_name-grows :
    (name : List ℕ) (b : FdtBuilder) (o : Option ℕ)
    → length b.strings ≤ length (on_name name b o).1.strings
unfolding on_name
on_name-grows name b (some off) = omega arith
on_name-grows name b none = let l = length-++ b.strings (name ++ 0 ∷ []) in omega arith

pub name_off-grows :
    (name : List ℕ) (b : FdtBuilder) → length b.strings ≤ length (name_off name b).1.strings
unfolding name_off
name_off-grows name b = on_name-grows name b (find_name name b.str_off)
