-- ===== src/Boot/Fdt/Build.antt =====
-- The structure block that the builder of internal/boot/fdt.go writes, read back.
use mathlib.Core.List.{append_assoc, append-nil}
use rvwasm.Base.{
  ℕ, zero, suc, ◌+◌, ◌%◌, ◌^◌, ◌≤◌, ◌<◌, ◌≡◌, refl, sym, ap, ap₂, ◌∙◌, subst, arith, Bool-cases,
  inl, inr, List, [], ◌∷◌, ◌++◌, some, ◌==◌, u32,
}
use rvwasm.Base.Arrays.{length, drop, zeros, take-++, drop-++, length-++}
use rvwasm.Boot.Fdt.{
  FdtBuilder, new_builder, be32, write, token, pad, align, begin_node, end_node, name_off, prop,
  Event, apply, build,
}
use rvwasm.Boot.Fdt.Reader.{
  gap, on_off, on_len, on_token, read_event, and_rest, read_events, get32-be32, IsText,
  c_string-text,
}
use rvwasm.Boot.Fdt.Strings.{
  IsNamed, IsNamed-++, IsNamed-read, IsNamed-le, AreNamed, Names, name_off-Names, name_off-grows,
}

length-zeros : (n : ℕ) → length (zeros n) ≡ n
length-zeros zero = refl
length-zeros (suc n) = let i = length-zeros n in omega arith

length-be32 : (v : ℕ) → length (be32 v) ≡ 4
unfolding be32
length-be32 v = refl

-- The loop of `align` from any length: it stops at the next multiple of 4.
pad-gap : (n : ℕ) (bs : List ℕ) → gap (length bs) ≤ n → pad n bs ≡ bs ++ zeros (gap (length bs))
unfolding pad
pad-gap zero bs h =
    let none_left : gap (length bs) ≡ 0 = omega arith in rw none_left (sym (append-nil bs))
pad-gap (suc n) bs h = elim (Bool-cases (length bs % 4 == 0)) [
  | inl e ↦ rw e (
      let none_left : gap (length bs) ≡ 0 = ground (arith, e) in rw none_left (sym (append-nil bs)))
  | inr e ↦ rw e (
      let size : length (bs ++ 0 ∷ []) ≡ length bs + 1 = length-++ bs (0 ∷ []) in
      let fewer : gap (length bs) ≡ suc (gap (length (bs ++ 0 ∷ []))) = ground (arith, e, size) in
      pad-gap n (bs ++ 0 ∷ []) (omega arith)
      ∙ append_assoc bs (0 ∷ []) (zeros (gap (length (bs ++ 0 ∷ []))))
      ∙ ap (λ (k : ℕ). bs ++ zeros k) (sym fewer))
]

-- The block before an event is a number of whole words, and so is it after.
abbrev IsAligned : List ℕ → Type 0
IsAligned bs = length bs % 4 ≡ 0

pad-IsAligned :
    (bs x : List ℕ)
    → IsAligned bs
    → (pad 3 (bs ++ x) ≡ bs ++ (x ++ zeros (gap (length x)))) × IsAligned (pad 3 (bs ++ x))
pad-IsAligned bs x h =
    let size : length (bs ++ x) ≡ length bs + length x = length-++ bs x in
    let same : gap (length (bs ++ x)) ≡ gap (length x) = omega arith in
    let padded : pad 3 (bs ++ x) ≡ (bs ++ x) ++ zeros (gap (length (bs ++ x))) =
      pad-gap 3 (bs ++ x) (omega arith) in
    let whole = ap length padded ∙ length-++ (bs ++ x) (zeros (gap (length (bs ++ x)))) in
    let z = length-zeros (gap (length (bs ++ x))) in
    (
      padded
          ∙ append_assoc bs x (zeros (gap (length (bs ++ x))))
          ∙ ap (λ (k : ℕ). bs ++ (x ++ zeros k)) same,
      omega arith,
    )

drop-zeros : (n : ℕ) (rest : List ℕ) → drop n (zeros n ++ rest) ≡ rest
drop-zeros zero rest = refl
drop-zeros (suc n) rest = drop-zeros n rest

-- What the reader needs of the text and the sizes in an event.
unfoldable pub IsGood : Event → Type 0
IsGood (Event.begun name) = IsText name
IsGood Event.ended = Unit
IsGood (Event.property name bytes) = IsText name × (length bytes < 2 ^ 32)

unfoldable pub AreGood : List Event → Type 0
AreGood [] = Unit
AreGood (e ∷ es) = IsGood e × AreGood es

-- The builder between two calls.
unfoldable pub IsWhole : FdtBuilder → Type 0
IsWhole b = (length b.struct_block % 4 ≡ 0) × AreNamed b.strings b.str_off

-- The bytes that a call adds to the blocks, whatever comes after them, read as `e`.
unfoldable pub Reads : Event → FdtBuilder → FdtBuilder → Type 0
Reads e b b' =
    (more : List ℕ) × (bs : List ℕ) × (b'.strings ≡ b.strings ++ more)
    × (b'.struct_block ≡ b.struct_block ++ bs)
    × IsWhole b'
    × ((t rest : List ℕ) → read_event (b'.strings ++ t) (bs ++ rest) ≡ some (e, rest))

read_begun :
    (name strings rest : List ℕ)
    → IsText name
    → read_event strings (be32 1 ++ (name ++ (0 ∷ (zeros (gap (length name + 1)) ++ rest))))
      ≡ some (Event.begun name, rest)
unfolding read_event on_token
read_begun name strings rest text =
    let g = gap (length name + 1) in
    rw
      (
        get32-be32 1 (name ++ (0 ∷ (zeros g ++ rest))) (omega arith),
        c_string-text name (zeros g ++ rest) text,
        drop-zeros g rest,
      )
      refl

-- What `begin` writes, and what comes after it, in one sequence.
flat :
    (t name z rest : List ℕ)
    → (t ++ (name ++ 0 ∷ [])) ++ z ++ rest ≡ t ++ (name ++ (0 ∷ (z ++ rest)))
flat t name z rest =
    append_assoc (t ++ (name ++ 0 ∷ [])) z rest
    ∙ append_assoc t (name ++ 0 ∷ []) (z ++ rest)
    ∙ ap (λ (x : List ℕ). t ++ x) (append_assoc name (0 ∷ []) (z ++ rest))

begin_node-Reads :
    (name : List ℕ) (b : FdtBuilder)
    → IsText name
    → IsWhole b
    → Reads (Event.begun name) b (begin_node name b)
unfolding Reads IsWhole begin_node align write token
begin_node-Reads name b text (h, names) =
    let tail = name ++ 0 ∷ [] in
    let x = be32 1 ++ tail in
    let g = gap (length name + 1) in
    let grouped : ((b.struct_block ++ be32 1) ++ name) ++ 0 ∷ [] ≡ b.struct_block ++ x =
      append_assoc (b.struct_block ++ be32 1) name (0 ∷ [])
      ∙ append_assoc b.struct_block (be32 1) tail in
    let (laid, whole) = pad-IsAligned b.struct_block x h in
    let size : gap (length x) ≡ g =
      (let l = length-++ (be32 1) tail in
        let k = length-be32 1 in let m = length-++ name (0 ∷ []) in omega arith) in
    (
      [],
      x ++ zeros (gap (length x)),
      sym (append-nil b.strings),
      ap (pad 3) grouped ∙ laid,
      (rw grouped whole, names),
      λ t rest.
          ap (λ (bs : List ℕ). read_event (b.strings ++ t) bs)
            (flat (be32 1) name (zeros (gap (length x))) rest)
          ∙ ap
              (λ (k : ℕ). read_event (b.strings ++ t) (be32 1 ++ (name ++ (0 ∷ (zeros k ++ rest)))))
              size
          ∙ read_begun name (b.strings ++ t) rest text,
    )

end_node-Reads : (b : FdtBuilder) → IsWhole b → Reads Event.ended b (end_node b)
unfolding Reads IsWhole end_node write token read_event on_token
end_node-Reads b (h, names) = (
  [],
  be32 2,
  sym (append-nil b.strings),
  refl,
  (let l = length-++ b.struct_block (be32 2) in let k = length-be32 2 in omega arith, names),
  λ t rest. rw (get32-be32 2 rest (omega arith)) refl,
)

read_property :
    (name strings bytes rest : List ℕ) (off : ℕ)
    → IsText name
    → IsNamed strings off name
    → off < 2 ^ 32
    → length bytes < 2 ^ 32
    → read_event strings (
        be32 3
        ++ (be32 (length bytes) ++ (be32 off ++ (bytes ++ (zeros (gap (length bytes)) ++ rest)))))
      ≡ some (Event.property name bytes, rest)
unfolding read_event on_token on_len on_off
read_property name strings bytes rest off text named small fits =
    let z = zeros (gap (length bytes)) in
    let body = bytes ++ (z ++ rest) in
    let size : length (bytes ++ z) ≡ length bytes + gap (length bytes) =
      (let l = length-++ bytes z in let k = length-zeros (gap (length bytes)) in omega arith) in
    let after : drop (length bytes + gap (length bytes)) body ≡ rest =
      subst (λ (n : ℕ). drop n body ≡ rest) size
        (ap (drop (length (bytes ++ z))) (sym (append_assoc bytes z rest))
          ∙ drop-++ (bytes ++ z) rest) in
    rw
      (
        get32-be32 3 (be32 (length bytes) ++ (be32 off ++ body)) (omega arith),
        get32-be32 (length bytes) (be32 off ++ body) fits,
        get32-be32 off body small,
        IsNamed-read strings off name text named,
        take-++ bytes (z ++ rest),
        after,
      )
      refl

-- What `prop` writes, and what comes after it, in one sequence.
flat_property :
    (t l o d z rest : List ℕ)
    → (t ++ (l ++ (o ++ d))) ++ z ++ rest ≡ t ++ (l ++ (o ++ (d ++ (z ++ rest))))
flat_property t l o d z rest =
    append_assoc (t ++ (l ++ (o ++ d))) z rest
    ∙ append_assoc t (l ++ (o ++ d)) (z ++ rest)
    ∙ ap (λ (x : List ℕ). t ++ x) (append_assoc l (o ++ d) (z ++ rest))
    ∙ ap (λ (x : List ℕ). t ++ (l ++ x)) (append_assoc o d (z ++ rest))

prop-Reads :
    (name bytes : List ℕ) (b : FdtBuilder)
    → IsText name
    → length bytes < 2 ^ 32
    → IsWhole b
    → length (prop name bytes b).strings < 2 ^ 32
    → Reads (Event.property name bytes) b (prop name bytes b)
unfolding Reads IsWhole prop align write token Names
prop-Reads name bytes b text fits (h, names) room =
    let sized = write (be32 (u32 (length bytes))) (token 3 b) in
    let r = name_off name sized in
    let grows = name_off-grows name sized in
    let (more, longer, same, named, all) = name_off-Names name sized (omega arith) names in
    let off = r.0 in
    let x = be32 3 ++ (be32 (length bytes) ++ (be32 off ++ bytes)) in
    let z = zeros (gap (length x)) in
    let start : r.1.struct_block ≡ b.struct_block ++ be32 3 ++ be32 (length bytes) =
      same
      ∙ ap (λ (n : ℕ). b.struct_block ++ be32 3 ++ be32 n)
          (let e : u32 (length bytes) ≡ length bytes = omega arith in e) in
    let grouped : (r.1.struct_block ++ be32 off) ++ bytes ≡ b.struct_block ++ x =
      ap (λ (w : List ℕ). w ++ be32 off ++ bytes) start
      ∙ append_assoc (b.struct_block ++ be32 3 ++ be32 (length bytes)) (be32 off) bytes
      ∙ append_assoc (b.struct_block ++ be32 3) (be32 (length bytes)) (be32 off ++ bytes)
      ∙ append_assoc b.struct_block (be32 3) (be32 (length bytes) ++ (be32 off ++ bytes)) in
    let (laid, whole) = pad-IsAligned b.struct_block x h in
    let size : gap (length x) ≡ gap (length bytes) =
      (let l1 = length-++ (be32 3) (be32 (length bytes) ++ (be32 off ++ bytes)) in
        let l2 = length-++ (be32 (length bytes)) (be32 off ++ bytes) in
        let l3 = length-++ (be32 off) bytes in
        let k1 = length-be32 3 in
        let k2 = length-be32 (length bytes) in let k3 = length-be32 off in omega arith) in
    let small : off < 2 ^ 32 = (let l = IsNamed-le r.1.strings off name named in omega arith) in
    (
      more,
      x ++ z,
      longer,
      ap (pad 3) grouped ∙ laid,
      (rw grouped whole, all),
      λ t rest.
          ap (λ (bs : List ℕ). read_event (r.1.strings ++ t) bs)
            (flat_property (be32 3) (be32 (length bytes)) (be32 off) bytes z rest)
          ∙ ap
              (λ (k : ℕ).
                read_event (r.1.strings ++ t)
                  (be32 3 ++ (be32 (length bytes) ++ (be32 off ++ (bytes ++ (zeros k ++ rest))))))
              size
          ∙ read_property name (r.1.strings ++ t) bytes rest off text
              (IsNamed-++ r.1.strings t off name named) small fits,
    )

apply-Reads :
    (e : Event) (b : FdtBuilder)
    → IsGood e
    → IsWhole b
    → length (apply e b).strings < 2 ^ 32
    → Reads e b (apply e b)
unfolding apply IsGood
apply-Reads (Event.begun name) b text whole room = begin_node-Reads name b text whole
apply-Reads Event.ended b good whole room = end_node-Reads b whole
apply-Reads (Event.property name bytes) b (text, fits) whole room =
    prop-Reads name bytes b text fits whole room

apply-grows : (e : Event) (b : FdtBuilder) → length b.strings ≤ length (apply e b).strings
unfolding apply begin_node end_node prop align write token
apply-grows (Event.begun name) b = omega arith
apply-grows Event.ended b = omega arith
apply-grows (Event.property name bytes) b =
    name_off-grows name (write (be32 (u32 (length bytes))) (token 3 b))

build-grows : (es : List Event) (b : FdtBuilder) → length b.strings ≤ length (build es b).strings
unfolding build
build-grows [] b = omega arith
build-grows (e ∷ es) b =
    let one = apply-grows e b in let rest = build-grows es (apply e b) in omega arith

-- The same for a sequence of calls.
unfoldable ReadsAll : List Event → FdtBuilder → FdtBuilder → Type 0
ReadsAll es b b' =
    (more : List ℕ) × (bs : List ℕ) × (b'.strings ≡ b.strings ++ more)
    × (b'.struct_block ≡ b.struct_block ++ bs)
    × ((t rest : List ℕ) → read_events (length es) (b'.strings ++ t) (bs ++ rest) ≡ es)

cons-ReadsAll :
    (e : Event) (es : List Event) (b b1 b' : FdtBuilder)
    → Reads e b b1
    → ReadsAll es b1 b'
    → ReadsAll (e ∷ es) b b'
unfolding Reads ReadsAll read_events and_rest
cons-ReadsAll e es b b1 b' (m1, x1, s1, e1, whole, read1) (m2, x2, s2, e2, read2) = (
  m1 ++ m2,
  x1 ++ x2,
  s2 ∙ ap (λ (s : List ℕ). s ++ m2) s1 ∙ append_assoc b.strings m1 m2,
  e2 ∙ ap (λ (s : List ℕ). s ++ x2) e1 ∙ append_assoc b.struct_block x1 x2,
  λ t rest.
      let strings : b'.strings ++ t ≡ b1.strings ++ (m2 ++ t) =
        ap (λ (s : List ℕ). s ++ t) s2 ∙ append_assoc b1.strings m2 t in
      let first : read_event (b'.strings ++ t) (x1 ++ x2 ++ rest) ≡ some (e, x2 ++ rest) =
        ap₂ (λ (s : List ℕ) (bs : List ℕ). read_event s bs) strings (append_assoc x1 x2 rest)
        ∙ read1 (m2 ++ t) (x2 ++ rest) in
      rw first (ap (λ (l : List Event). e ∷ l) (read2 t rest)),
)

nil-ReadsAll : (b : FdtBuilder) → ReadsAll [] b b
unfolding ReadsAll read_events
nil-ReadsAll b =
    ([], [], sym (append-nil b.strings), sym (append-nil b.struct_block), λ t rest. refl)

Reads-IsWhole : (e : Event) (b b' : FdtBuilder) → Reads e b b' → IsWhole b'
unfolding Reads
Reads-IsWhole e b b' (more, bs, s, x, whole, read) = whole

new_builder-IsWhole : IsWhole new_builder
unfolding IsWhole AreNamed
new_builder-IsWhole = (refl, tt)

build-ReadsAll :
    (es : List Event) (b : FdtBuilder)
    → AreGood es
    → IsWhole b
    → length (build es b).strings < 2 ^ 32
    → ReadsAll es b (build es b)
unfolding build AreGood
build-ReadsAll [] b good whole room = nil-ReadsAll b
build-ReadsAll (e ∷ es) b (g, good) whole room =
    let grows = build-grows es (apply e b) in
    let one = apply-Reads e b g whole (omega arith) in
    cons-ReadsAll e es b (apply e b) (build es (apply e b)) one
      (build-ReadsAll es (apply e b) good (Reads-IsWhole e b (apply e b) one) room)

-- For any calls of begin, end and prop on an empty builder, with names without a zero byte,
-- property values below 2^32 bytes and a strings block below 2^32 bytes, a reader of the structure
-- block that looks property names up in the strings block gets exactly the nodes, names and values
-- of the calls, in order, though a name that comes again is stored once.
pub read_events-build :
    (es : List Event)
    → AreGood es
    → length (build es new_builder).strings < 2 ^ 32
    → read_events (length es) (build es new_builder).strings (build es new_builder).struct_block
      ≡ es
unfolding ReadsAll
read_events-build es good room =
    let b = build es new_builder in
    let (more, bs, s, e, read) = build-ReadsAll es new_builder good new_builder-IsWhole room in
    ap₂ (λ (x : List ℕ) (y : List ℕ). read_events (length es) x y) (sym (append-nil b.strings))
      (e ∙ sym (append-nil bs))
    ∙ read [] []
