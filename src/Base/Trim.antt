-- ===== src/Base/Trim.antt =====
-- Trimming and letter case go together.
use Prim.Native.Nat.{ℕ}
use mathlib.Core.Path.{◌≡◌, refl, sym, ap, ap₂, subst, ◌∙◌}
use mathlib.Core.List.{[], ◌∷◌, ◌++◌, map, reverse, reverse_aux, reverse-append, reverse-reverse}
use mathlib.Core.Bool.{Bool, true, not}
use native.Mathlib.Omega.{arith}
use mathlib.Core.Logic.{inl, inr}
use labtether_linux.Base.Tests.{Bool-cases}
use labtether_linux.Base.Text.{Text, is_space, lower_char, trim_left, trim_space, to_lower}

is_space-lower_char : (c : ℕ) → is_space (lower_char c) ≡ is_space c
unfolding is_space lower_char
is_space-lower_char c = ground arith

trim_left-map : (s : Text) → trim_left (map lower_char s) ≡ map lower_char (trim_left s)
unfolding trim_left
trim_left-map [] = refl
trim_left-map (c ∷ s) = elim (Bool-cases (is_space c)) [
  | inl y ↦ rw (is_space-lower_char c, y) (trim_left-map s)
  | inr n ↦ rw (is_space-lower_char c, n) refl
]

map-reverse_aux :
    (f : ℕ → ℕ) (s t : Text) → map f (reverse_aux s t) ≡ reverse_aux (map f s) (map f t)
map-reverse_aux f [] t = refl
map-reverse_aux f (c ∷ s) t = map-reverse_aux f s (c ∷ t)

reverse-map : (s : Text) → reverse (map lower_char s) ≡ map lower_char (reverse s)
reverse-map s = sym (map-reverse_aux lower_char s [])

-- Lower case can be taken before or after the trimming.
pub trim_space-to_lower : (s : Text) → trim_space (to_lower s) ≡ to_lower (trim_space s)
unfolding trim_space to_lower
trim_space-to_lower s =
    ap (λ t. reverse (trim_left (reverse t))) (trim_left-map s)
    ∙ ap (λ t. reverse (trim_left t)) (reverse-map (trim_left s))
    ∙ ap reverse (trim_left-map (reverse (trim_left s)))
    ∙ reverse-map (trim_left (reverse (trim_left s)))

starts_plain : Text → Bool
starts_plain [] = true
starts_plain (c ∷ s) = not (is_space c)

starts_plain-trim_left : (s : Text) → starts_plain (trim_left s) ≡ true
unfolding trim_left starts_plain
starts_plain-trim_left [] = refl
starts_plain-trim_left (c ∷ s) = elim (Bool-cases (is_space c)) [
  | inl y ↦ rw y (starts_plain-trim_left s)
  | inr n ↦ rw n (ap not n)
]

starts_plain-append : (s t : Text) → starts_plain (s ++ t) ≡ true → starts_plain s ≡ true
unfolding starts_plain
starts_plain-append [] t h = refl
starts_plain-append (c ∷ s) t h = h

trim_left-starts_plain : (s : Text) → starts_plain s ≡ true → trim_left s ≡ s
unfolding trim_left starts_plain
trim_left-starts_plain [] h = refl
trim_left-starts_plain (c ∷ s) h = ground (arith, h)

trim_left-tail : (s : Text) → (front : Text) × (s ≡ front ++ trim_left s)
unfolding trim_left
trim_left-tail [] = ([], refl)
trim_left-tail (c ∷ s) = elim (Bool-cases (is_space c)) [
  | inl y ↦ let (front, e) = trim_left-tail s in (c ∷ front, rw y (ap (◌∷◌ c) e))
  | inr n ↦ ([], rw n refl)
]

trim_left-trim_space : (s : Text) → trim_left (trim_space s) ≡ trim_space s
unfolding trim_space
trim_left-trim_space s =
    let (front, e) = trim_left-tail (reverse (trim_left s)) in
    trim_left-starts_plain (reverse (trim_left (reverse (trim_left s)))) (
      starts_plain-append _ (reverse front) (
        subst (λ t. starts_plain t ≡ true)
          (sym (reverse-reverse (trim_left s))
            ∙ ap reverse e
            ∙ reverse-append front (trim_left (reverse (trim_left s))))
          (starts_plain-trim_left s)))

-- A trimmed text is trimmed.
pub trim_space-trim_space : (s : Text) → trim_space (trim_space s) ≡ trim_space s
trim_space-trim_space s =
    unfold trim_space in
    (ap (λ t. reverse (trim_left (reverse t))) (trim_left-trim_space s)
      ∙ ap (λ t. reverse (trim_left t)) (reverse-reverse (trim_left (reverse (trim_left s))))
      ∙ ap reverse (trim_left-starts_plain _ (starts_plain-trim_left (reverse (trim_left s)))))

lower_char-lower_char : (c : ℕ) → lower_char (lower_char c) ≡ lower_char c
unfolding lower_char
lower_char-lower_char c = ground arith

pub to_lower-to_lower : (s : Text) → to_lower (to_lower s) ≡ to_lower s
unfolding to_lower
to_lower-to_lower [] = refl
to_lower-to_lower (c ∷ s) = ap₂ ◌∷◌ (lower_char-lower_char c) (to_lower-to_lower s)
