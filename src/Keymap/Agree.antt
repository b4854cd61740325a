-- ===== src/Keymap/Agree.antt =====
-- The tables of key codes in internal/agentcore/remoteaccess/webrtc_keymap.go: they have the same codes, and no Linux
-- input code stands for two of them.
use labtether_linux.Base.{
  ℕ, ◌≡◌, refl, ap, sym, ◌∙◌, Bool, true, false, not, ◌&&◌, Option, none, some, List, [], ◌∷◌, ◌==◌,
  ltb, ◌<◌, any, all, arith, Bool-cases, inl, inr,
}
use labtether_linux.Base.Text.{Text, text_eq, text_eq_iff, trim_space}
use labtether_linux.Base.Trim.{trim_space-trim_space}
use labtether_linux.Keymap.InputCodes.{dom_code_linux_input_codes}
use labtether_linux.Keymap.Keysyms.{dom_code_x11_keysyms}
use labtether_linux.Keymap.{lookup_key, dom_code_to_linux_input_code, dom_code_to_x11_keysym}

abbrev pub is_some {ℓ} : {A : Type ℓ} → Option A → Bool
is_some none = false
is_some (some x) = true

-- A key that one table has, the other has too, if it has all keys of the first.
lookup_key-covered {ℓ κ} :
    {A : Type ℓ} {B : Type κ} (k : Text) (t : List (Text × A)) (u : List (Text × B))
    → all (λ e. is_some (lookup_key e.0 u)) t ≡ true
    → is_some (lookup_key k t) ≡ true
    → is_some (lookup_key k u) ≡ true
unfolding lookup_key
lookup_key-covered k [] u c h = cc
lookup_key-covered k ((j, v) ∷ t) u c h = elim (Bool-cases (text_eq j k)) [
  | inl same ↦
      ap (λ i. is_some (lookup_key i u)) (sym ((text_eq_iff j k).0 same)) ∙ ground (arith, c)
  | inr other ↦ lookup_key-covered k t u (ground (arith, c)) (simp other at h)
]

module _ {ℓ} {A : Type ℓ} (eq : A → A → Bool) (eq_refl : (a : A) → eq a a ≡ true) where
  abbrev pub distinct : List (Text × A) → Bool
  distinct [] = true
  distinct (e ∷ t) = not (any (λ f. eq f.1 e.1) t) && distinct t

  lookup_key-any :
      (k : Text) (t : List (Text × A)) (v : A)
      → lookup_key k t ≡ some v
      → any (λ e. eq e.1 v) t ≡ true
  unfolding lookup_key
  lookup_key-any k [] v h = cc
  lookup_key-any k ((j, w) ∷ t) v h = elim (Bool-cases (text_eq j k)) [
    | inl same ↦ ground (arith, same, h, eq_refl v)
    | inr other ↦ ground (arith, lookup_key-any k t v (simp other at h))
  ]

  lookup_key_injective :
      (k l : Text) (t : List (Text × A)) (v : A)
      → distinct t ≡ true
      → lookup_key k t ≡ some v
      → lookup_key l t ≡ some v
      → k ≡ l
  unfolding lookup_key
  lookup_key_injective k l [] v d p q = cc
  lookup_key_injective k l ((j, w) ∷ t) v d p q = elim (Bool-cases (text_eq j k)) [
    | inl jk ↦ elim (Bool-cases (text_eq j l)) [
      | inl jl ↦ sym ((text_eq_iff j k).0 jk) ∙ (text_eq_iff j l).0 jl
      | inr other ↦ ground (arith, d, jk, p, lookup_key-any l t v (simp other at q))
    ]
    | inr jk ↦ elim (Bool-cases (text_eq j l)) [
      | inl jl ↦ ground (arith, d, jl, q, lookup_key-any k t v (simp jk at p))
      | inr jl ↦ lookup_key_injective k l t v (ground (arith, d)) (simp jk at p) (simp jl at q)
    ]
  ]

both_ways : (a b : Bool) → (a ≡ true → b ≡ true) → (b ≡ true → a ≡ true) → a ≡ b
both_ways true b f g = sym (f refl)
both_ways false true f g = g refl
both_ways false false f g = refl

codes_covered :
    all (λ e. is_some (lookup_key e.0 dom_code_x11_keysyms)) dom_code_linux_input_codes ≡ true
unfolding lookup_key labtether_linux.Base.Text.text_eq
codes_covered = refl

keysyms_covered :
    all (λ e. is_some (lookup_key e.0 dom_code_linux_input_codes)) dom_code_x11_keysyms ≡ true
unfolding lookup_key labtether_linux.Base.Text.text_eq
keysyms_covered = refl

same_number : (a : ℕ) → (a == a) ≡ true
same_number a = ground arith

codes_distinct : distinct (λ a b. a == b) same_number dom_code_linux_input_codes ≡ true
codes_distinct = refl

pub dom_code_to_linux_input_code-dom_code_to_x11_keysym :
    (code : Text)
    → is_some (dom_code_to_linux_input_code code) ≡ is_some (dom_code_to_x11_keysym code)
unfolding dom_code_to_linux_input_code dom_code_to_x11_keysym
dom_code_to_linux_input_code-dom_code_to_x11_keysym code =
    both_ways _ _
      (lookup_key-covered (trim_space code) dom_code_linux_input_codes dom_code_x11_keysyms
        codes_covered)
      (lookup_key-covered (trim_space code) dom_code_x11_keysyms dom_code_linux_input_codes
        keysyms_covered)

pub dom_code_to_linux_input_code_injective :
    (a b : Text) (n : ℕ)
    → dom_code_to_linux_input_code a ≡ some n
    → dom_code_to_linux_input_code b ≡ some n
    → trim_space a ≡ trim_space b
unfolding dom_code_to_linux_input_code
dom_code_to_linux_input_code_injective a b n =
    lookup_key_injective (λ x y. x == y) same_number (trim_space a) (trim_space b)
      dom_code_linux_input_codes n codes_distinct

lookup_key-all {ℓ} :
    {A : Type ℓ} (p : A → Bool) (k : Text) (t : List (Text × A)) (v : A)
    → all (λ e. p e.1) t ≡ true
    → lookup_key k t ≡ some v
    → p v ≡ true
unfolding lookup_key
lookup_key-all p k [] v c h = cc
lookup_key-all p k ((j, w) ∷ t) v c h = elim (Bool-cases (text_eq j k)) [
  | inl same ↦ ground (arith, same, c, h)
  | inr other ↦ lookup_key-all p k t v (ground (arith, c)) (simp other at h)
]

pub dom_code_to_linux_input_code_bound :
    (code : Text) (n : ℕ) → dom_code_to_linux_input_code code ≡ some n → n < 1024
unfolding dom_code_to_linux_input_code
dom_code_to_linux_input_code_bound code n h =
    ground (
      arith,
      lookup_key-all (λ m. ltb m 1024) (trim_space code) dom_code_linux_input_codes n refl h,
    )

-- The table is searched with the trimmed code, whether the caller trims it or not.
pub dom_code_to_x11_keysym-trim_space :
    (code : Text) → dom_code_to_x11_keysym (trim_space code) ≡ dom_code_to_x11_keysym code
unfolding dom_code_to_x11_keysym
dom_code_to_x11_keysym-trim_space code =
    ap (λ k. lookup_key k dom_code_x11_keysyms) (trim_space-trim_space code)

pub no_code : dom_code_to_x11_keysym (trim_space []) ≡ none
unfolding dom_code_to_x11_keysym lookup_key labtether_linux.Base.Text.text_eq
    labtether_linux.Base.Text.trim_space
no_code = refl
