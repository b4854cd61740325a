-- ===== src/Base/Words.antt =====
-- The words that strings.Fields finds, and the texts that strings.Contains finds.
use Prim.Native.Nat.{ℕ}
use mathlib.Core.Path.{◌≡◌, refl, sym, ap, ◌∙◌}
use mathlib.Core.Bool.{true, false}
use mathlib.Core.Logic.{inl, inr}
use mathlib.Core.List.{List, [], ◌∷◌, ◌++◌, append-nil, append_assoc}
use native.Mathlib.Omega.{arith}
use labtether_linux.Base.Tests.{Bool-cases}
use labtether_linux.Base.Lists.{any, All}
use labtether_linux.Base.Text.{
  Text, is_empty, is_space, with_field, fields_from, fields, join, has_prefix, contains,
}

IsWord : Text → Type 0
IsWord w = (is_empty w ≡ false) × (any is_space w ≡ false)

any-one_more :
    (w : Text) (c : ℕ)
    → any is_space w ≡ false
    → is_space c ≡ false
    → any is_space (w ++ (c ∷ [])) ≡ false
any-one_more [] c h n = ground (arith, n)
any-one_more (d ∷ w) c h n = ground (arith, h, any-one_more w c (ground (arith, h)) n)

with_field-IsWord :
    (w : Text) (rest : List Text)
    → any is_space w ≡ false
    → All IsWord rest
    → All IsWord (with_field w rest)
unfolding IsWord
with_field-IsWord [] rest h k = k
with_field-IsWord (c ∷ w) rest h k = ((refl, h), k)

fields_from-IsWord :
    (current s : Text) → any is_space current ≡ false → All IsWord (fields_from current s)
unfolding fields_from
fields_from-IsWord current [] h = with_field-IsWord current [] h tt
fields_from-IsWord current (c ∷ s) h = elim (Bool-cases (is_space c)) [
  | inl y ↦ rw y (with_field-IsWord current (fields_from [] s) h (fields_from-IsWord [] s refl))
  | inr n ↦ rw n (fields_from-IsWord (current ++ (c ∷ [])) s (any-one_more current c h n))
]

fields_from-append :
    (current w rest : Text)
    → any is_space w ≡ false
    → fields_from current (w ++ rest) ≡ fields_from (current ++ w) rest
unfolding fields_from
fields_from-append current [] rest h = ap (λ t. fields_from t rest) (sym (append-nil current))
fields_from-append current (c ∷ w) rest h =
    let n : is_space c ≡ false = ground (arith, h) in
    rw n (
      fields_from-append (current ++ (c ∷ [])) w rest (ground (arith, h))
      ∙ ap (λ t. fields_from t rest) (append_assoc current (c ∷ []) w))

with_field-word : (w : Text) (rest : List Text) → is_empty w ≡ false → with_field w rest ≡ w ∷ rest
with_field-word [] rest h = cc
with_field-word (c ∷ w) rest h = refl

fields_from-join : (ws : List Text) → All IsWord ws → fields_from [] (join ws (32 ∷ [])) ≡ ws
unfolding fields_from join IsWord is_space
fields_from-join [] h = refl
fields_from-join (w ∷ []) ((full, plain), _) =
    ap (fields_from []) (sym (append-nil w))
    ∙ fields_from-append [] w [] plain
    ∙ with_field-word w [] full
fields_from-join (w ∷ v ∷ ws) ((full, plain), h) =
    fields_from-append [] w ((32 ∷ []) ++ join (v ∷ ws) (32 ∷ [])) plain
    ∙ with_field-word w _ full
    ∙ ap (◌∷◌ w) (fields_from-join (v ∷ ws) h)

-- The words of a text, joined by blanks, have the same words.
pub fields-join : (s : Text) → fields (join (fields s) (32 ∷ [])) ≡ fields s
unfolding fields
fields-join s = fields_from-join (fields_from [] s) (fields_from-IsWord [] s refl)

-- One text stands in another.
abbrev pub Occurs : Text → Text → Type 0
Occurs sub s = (front : Text) × (back : Text) × (s ≡ front ++ (sub ++ back))

has_prefix-append : (sub back : Text) → has_prefix (sub ++ back) sub ≡ true
unfolding has_prefix
has_prefix-append [] back = refl
has_prefix-append (c ∷ sub) back = ground (arith, has_prefix-append sub back)

contains-append : (front sub back : Text) → contains (front ++ (sub ++ back)) sub ≡ true
unfolding contains
contains-append [] [] [] = unfold has_prefix in refl
contains-append [] [] (c ∷ back) = unfold has_prefix in refl
contains-append [] (c ∷ sub) back = rw (has_prefix-append (c ∷ sub) back) refl
contains-append (c ∷ front) sub back = rw (contains-append front sub back) (ground arith)

pub contains-Occurs : (s sub : Text) → contains s sub ≡ false → ¬ Occurs sub s
contains-Occurs s sub h (front, back, e) = cc ((rw e at h), contains-append front sub back)
