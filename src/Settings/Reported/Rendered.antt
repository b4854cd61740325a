-- ===== src/Settings/Reported/Rendered.antt =====
-- What a field is reported as once the switch of internal/agentcore/settings_runtime.go has set it.
use labtether_linux.Base.{
  ℕ, ◌≡◌, refl, sym, ap, subst, ◌∙◌, ◌≤◌, ◌<◌, ◌-◌, ◌^◌, Bool, true, false, Option, none, some,
  List, [], ◌∷◌, All, arith, Bool-cases, inl, inr,
}
use labtether_linux.Base.Int.{ℤ, pos, negsuc}
use labtether_linux.Base.Result.{ok}
use labtether_linux.Base.Decimal.{itoa, atoi-itoa}
use labtether_linux.Base.Text.{
  Text, text_eq, text_eq_iff, is_empty, trim_space, to_lower, equal_fold, parse_bool,
}
use labtether_linux.Base.Trim.{trim_space-to_lower}
use labtether_linux.Settings.Values.{normalize_int, normalize_bool, normalize_enum, format_bool}
use labtether_linux.Settings.Apply.Config.{RuntimeConfig, Batch}
use labtether_linux.Settings.Apply.Change.{
  int_of, bool_of, nanoseconds, same_int, same_bool, same_text, same_word, set_field,
}
use labtether_linux.Settings.Reported.{
  or_default, positive_or, duration_seconds, effective_sec, word,
}

-- A field that is set is the new value, or was the same before.
module _ {A : Type 0} (get : RuntimeConfig → A) (set : A → RuntimeConfig → RuntimeConfig)
    (law : (x : A) (c : RuntimeConfig) → get (set x c) ≡ x) where
  set_field_value :
      (P : A → Type 0) (same : RuntimeConfig → A → Bool) (read : Text → A) (v : Text) (b : Batch)
      → (same b.runtime.cfg (read v) ≡ true → P (get b.runtime.cfg))
      → P (read v)
      → P (get (set_field same read set v b).runtime.cfg)
  unfolding set_field
  set_field_value P same read v b kept new = elim (Bool-cases (same b.runtime.cfg (read v))) [
    | inl y ↦ rw y (kept y)
    | inr n ↦ rw n (subst P (sym (law (read v) b.runtime.cfg)) new)
  ]

-- A truth value.
same_bool_lem : (x y : Bool) → same_bool x y ≡ true → x ≡ y
same_bool_lem true true h = refl
same_bool_lem false false h = refl
same_bool_lem true false h = cc
same_bool_lem false true h = cc

bool_of_lem : (o : Option Bool) (v : Text) → normalize_bool o ≡ ok v → format_bool (bool_of v) ≡ v
unfolding parse_bool text_eq
bool_of_lem none v h = cc
bool_of_lem (some true) v h =
    subst (λ t. format_bool (bool_of t) ≡ t) {x = format_bool true} {y = v} (ground (arith, h)) refl
bool_of_lem (some false) v h =
    subst (λ t. format_bool (bool_of t) ≡ t) {x = format_bool false} {y = v} (ground (arith, h))
      refl

pub bool_field :
    (get : RuntimeConfig → Bool) (set : Bool → RuntimeConfig → RuntimeConfig)
    → ((x : Bool) (c : RuntimeConfig) → get (set x c) ≡ x)
    → (o : Option Bool) (v : Text) (b : Batch) → normalize_bool o ≡ ok v
    → format_bool (get (set_field (λ c x. same_bool (get c) x) bool_of set v b).runtime.cfg) ≡ v
bool_field get set law o v b h =
    set_field_value get set law (λ x. format_bool x ≡ v) (λ c x. same_bool (get c) x) bool_of v b
      (λ s. ap format_bool (same_bool_lem (get b.runtime.cfg) (bool_of v) s) ∙ bool_of_lem o v h)
      (bool_of_lem o v h)

-- A number.
record IsNumber (low high : ℕ) (v : Text) : Type 0 where
  number : ℕ
  text : v ≡ itoa (pos number)
  value : int_of v ≡ pos number
  least : low ≤ number
  most : number ≤ high

normalize_int-IsNumber :
    (low high : ℕ) (z : Option ℤ) (v : Text)
    → 0 < low
    → 0 < high
    → high ≤ 2 ^ 63 - 1
    → normalize_int low high z ≡ ok v
    → IsNumber low high v
unfolding normalize_int
normalize_int-IsNumber low high none v l h m e = cc
normalize_int-IsNumber low high (some (negsuc n)) v l h m e = ground (arith, l, h, e)
normalize_int-IsNumber low high (some (pos n)) v l h m e =
    let t : itoa (pos n) ≡ v = ground (arith, e) in
    let bound : n ≤ high = ground (arith, e, h) in
    record {
      number = n;
      text = sym t;
      value =
          subst (λ u. int_of u ≡ pos n) t (rw (int_of, atoi-itoa n (omega (arith, bound, m))) refl);
      least = ground (arith, e, l);
      most = bound;
    }

same_int_lem : (x y : ℤ) → same_int x y ≡ true → x ≡ y
same_int_lem (pos m) (pos n) h = ground (arith, h)
same_int_lem (negsuc m) (negsuc n) h = ground (arith, h)
same_int_lem (pos m) (negsuc n) h = cc
same_int_lem (negsuc m) (pos n) h = cc

positive_lem : (d z : ℤ) (n : ℕ) → z ≡ pos n → 0 < n → positive_or d z ≡ pos n
positive_lem d (pos m) n e h = ground (arith, e, h)
positive_lem d (negsuc m) n e h = cc

pub int_field :
    (get : RuntimeConfig → ℤ) (set : ℤ → RuntimeConfig → RuntimeConfig)
    → ((x : ℤ) (c : RuntimeConfig) → get (set x c) ≡ x)
    → (d : ℤ) (low high : ℕ) (z : Option ℤ) (v : Text) (b : Batch) → 0 < low
    → low < high
    → high ≤ 2 ^ 63 - 1
    → normalize_int low high z ≡ ok v
    → itoa (positive_or d (get (set_field (λ c x. same_int (get c) x) int_of set v b).runtime.cfg))
      ≡ v
int_field get set law d low high z v b l h m e =
    let r = normalize_int-IsNumber low high z v l (omega (arith, l, h)) m e in
    let positive : 0 < r.number = omega (arith, l, r.least) in
    let new : itoa (positive_or d (int_of v)) ≡ v =
      ap itoa (positive_lem d (int_of v) r.number r.value positive) ∙ sym r.text in
    set_field_value get set law (λ x. itoa (positive_or d x) ≡ v) (λ c x. same_int (get c) x) int_of
      v b
      (λ s. ap (λ x. itoa (positive_or d x)) (same_int_lem (get b.runtime.cfg) (int_of v) s) ∙ new)
      new

seconds_lem :
    (d z : ℤ) (n : ℕ) → z ≡ pos n → 0 < n → duration_seconds (positive_or d (nanoseconds z)) ≡ pos n
seconds_lem d (pos m) n e h = ground (arith, e, h)
seconds_lem d (negsuc m) n e h = cc

pub duration_field :
    (get : RuntimeConfig → ℤ) (set : ℤ → RuntimeConfig → RuntimeConfig)
    → ((x : ℤ) (c : RuntimeConfig) → get (set x c) ≡ x)
    → (d : ℤ) (low high : ℕ) (z : Option ℤ) (v : Text) (b : Batch) → 0 < low
    → low < high
    → high ≤ 2 ^ 63 - 1
    → normalize_int low high z ≡ ok v
    → itoa (
        duration_seconds (
          positive_or d (
            get
              (set_field
                (λ c x. same_int (get c) x)
                (λ u. nanoseconds (int_of u))
                set
                v
                b).runtime.cfg)))
      ≡ v
duration_field get set law d low high z v b l h m e =
    let r = normalize_int-IsNumber low high z v l (omega (arith, l, h)) m e in
    let positive : 0 < r.number = omega (arith, l, r.least) in
    let new : itoa (duration_seconds (positive_or d (nanoseconds (int_of v)))) ≡ v =
      ap itoa (seconds_lem d (int_of v) r.number r.value positive) ∙ sym r.text in
    set_field_value get set law (λ x. itoa (duration_seconds (positive_or d x)) ≡ v)
      (λ c x. same_int (get c) x) (λ u. nanoseconds (int_of u)) v b
      (λ s.
        ap (λ x. itoa (duration_seconds (positive_or d x)))
          (same_int_lem (get b.runtime.cfg) (nanoseconds (int_of v)) s)
        ∙ new)
      new

effective_lem : (z w : ℤ) (n : ℕ) → z ≡ pos n → 0 < n → effective_sec z w ≡ pos n
effective_lem (pos m) w n e h = ground (arith, e, h)
effective_lem (negsuc m) w n e h = cc

pub interval_value :
    (w : ℤ) (low high : ℕ) (z : Option ℤ) (v : Text)
    → 0 < low
    → low < high
    → high ≤ 2 ^ 63 - 1
    → normalize_int low high z ≡ ok v
    → itoa (effective_sec (int_of v) w) ≡ v
interval_value w low high z v l h m e =
    let r = normalize_int-IsNumber low high z v l (omega (arith, l, h)) m e in
    ap itoa (effective_lem (int_of v) w r.number r.value (omega (arith, l, r.least))) ∙ sym r.text

-- A text without blanks at its ends.
pub text_field :
    (get : RuntimeConfig → Text) (set : Text → RuntimeConfig → RuntimeConfig)
    → ((x : Text) (c : RuntimeConfig) → get (set x c) ≡ x)
    → (v : Text) (b : Batch) → trim_space v ≡ v
    → trim_space (get (set_field (λ c x. same_text (get c) x) (λ u. u) set v b).runtime.cfg) ≡ v
text_field get set law v b t =
    set_field_value get set law (λ x. trim_space x ≡ v) (λ c x. same_text (get c) x) (λ u. u) v b
      (λ s. (text_eq_iff (trim_space (get b.runtime.cfg)) v).0 s) t

or_default_lem : (d v w : Text) → w ≡ v → is_empty v ≡ false → or_default d w ≡ v
or_default_lem d v w e h = subst (λ u. or_default d u ≡ v) (sym e) (rw h refl)

pub default_field :
    (get : RuntimeConfig → Text) (set : Text → RuntimeConfig → RuntimeConfig)
    → ((x : Text) (c : RuntimeConfig) → get (set x c) ≡ x)
    → (d v : Text) (b : Batch) → trim_space v ≡ v
    → is_empty v ≡ false
    → or_default d
        (trim_space (get (set_field (λ c x. same_text (get c) x) (λ u. u) set v b).runtime.cfg))
      ≡ v
default_field get set law d v b t full = or_default_lem d v _ (text_field get set law v b t) full

-- A word in lower case.
pub record IsWord (v : Text) : Type 0 where
  pub lower : to_lower v ≡ v
  pub trimmed : trim_space v ≡ v
  pub full : is_empty v ≡ false

pub normalize_enum-IsWord :
    (t : Text) (allowed : List Text) (v : Text)
    → All IsWord allowed
    → normalize_enum t allowed ≡ ok v
    → IsWord v
unfolding normalize_enum
normalize_enum-IsWord t [] v a h = cc
normalize_enum-IsWord t (w ∷ allowed) v a h = elim (Bool-cases (equal_fold t w)) [
  | inl same ↦ subst IsWord (ground (arith, same, h)) a.0
  | inr other ↦ normalize_enum-IsWord t allowed v a.1 (simp other at h)
]

pub word_lem : (d v : Text) → IsWord v → word d v ≡ v
word_lem d v w = or_default_lem d v _ (ap trim_space w.lower ∙ w.trimmed) w.full

same_word_lem : (old v : Text) → IsWord v → same_word old v ≡ true → trim_space (to_lower old) ≡ v
unfolding equal_fold
same_word_lem old v w h =
    trim_space-to_lower old ∙ (text_eq_iff (to_lower (trim_space old)) (to_lower v)).0 h ∙ w.lower

pub word_field :
    (get : RuntimeConfig → Text) (set : Text → RuntimeConfig → RuntimeConfig)
    → ((x : Text) (c : RuntimeConfig) → get (set x c) ≡ x)
    → (d v : Text) (b : Batch) → IsWord v
    → word d (get (set_field (λ c x. same_word (get c) x) (λ u. u) set v b).runtime.cfg) ≡ v
word_field get set law d v b w =
    set_field_value get set law (λ x. word d x ≡ v) (λ c x. same_word (get c) x) (λ u. u) v b
      (λ s. or_default_lem d v _ (same_word_lem (get b.runtime.cfg) v w s) w.full) (word_lem d v w)

pub is_word : {v : Text} → to_lower v ≡ v → trim_space v ≡ v → is_empty v ≡ false → IsWord v
is_word p q r = record { lower = p; trimmed = q; full = r }
