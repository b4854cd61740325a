-- ===== src/Settings/Values/Kinds.antt =====
-- What a normalized value of each kind is: internal/agentcore/sysconfig/settings_value_validation.go
-- and the table of settings_definitions.go.
use labtether_linux.Base.{
  ℕ, ◌≤◌, ◌<◌, ◌-◌, ◌^◌, ◌≡◌, refl, subst, Bool, true, false, Option, none, some, List, [], ◌∷◌,
  if◌then◌else◌, ltb, All, Some, here, there, arith, Bool-cases, inl, inr,
}
use labtether_linux.Base.Result.{Result, ok, err}
use labtether_linux.Base.Int.{ℤ, pos, negsuc}
use labtether_linux.Base.Text.{
  Text, trim_space, text_eq, equal_fold, parse_bool, to_lower, text_eq_iff,
}
use labtether_linux.Base.Decimal.{atoi, atoi-itoa}
use labtether_linux.Settings.Definition.{
  Definition, SettingType, no_setting, string_setting, int_setting, bool_setting, enum_setting,
}
use labtether_linux.Settings.Values.{
  SettingError, Packages, find_definition, agent_setting_definitions,
  agent_setting_definition_by_key, normalize_int, normalize_bool, normalize_enum, normalize_as,
  format_bool, normalize_agent_setting_value,
}

-- The value says what a reader of this kind of setting makes of it without looking at errors: a number within
-- the bounds, a truth value, or one of the allowed values, spelled as the table spells it.
pub ReadsBack : Definition → SettingType → Text → Type 0
ReadsBack d int_setting out =
    (n : ℕ) × (atoi out ≡ some (pos n)) × (d.min_int ≤ n) × (n ≤ d.max_int)
ReadsBack d bool_setting out = (b : Bool) × (parse_bool out ≡ some b)
ReadsBack d enum_setting out = Some (λ allowed. out ≡ allowed) d.allowed_values
ReadsBack d string_setting out = Unit
ReadsBack d no_setting out = Unit

-- An integer setting has both bounds, and they fit an int.
abbrev pub HasBounds : Definition → SettingType → Type 0
HasBounds d int_setting = (0 < d.min_int) × (0 < d.max_int) × (d.max_int ≤ 2 ^ 63 - 1)
HasBounds d _ = Unit

normalize_int_reads_back :
    (low high : ℕ) (z : Option ℤ) (out : Text)
    → 0 < low
    → 0 < high
    → high ≤ 2 ^ 63 - 1
    → normalize_int low high z ≡ ok out
    → (n : ℕ) × (atoi out ≡ some (pos n)) × (low ≤ n) × (n ≤ high)
unfolding normalize_int
normalize_int_reads_back low high none out l h b e = cc
normalize_int_reads_back low high (some (negsuc m)) out l h b e = elim (Bool-cases (ltb 0 low)) [
  | inl y ↦ ground (arith, y, e, l)
  | inr y ↦ ground (arith, y, l)
]
normalize_int_reads_back low high (some (pos n)) out l h b e = (
  n,
  subst (λ t. atoi t ≡ some (pos n)) (ground (arith, e)) (atoi-itoa n (ground (arith, e, b))),
  ground (arith, e),
  ground (arith, e),
)

normalize_bool_reads_back :
    (o : Option Bool) (out : Text)
    → normalize_bool o ≡ ok out
    → (b : Bool) × (parse_bool out ≡ some b)
unfolding parse_bool text_eq
normalize_bool_reads_back none out e = cc
normalize_bool_reads_back (some true) out e = (
  true,
  subst (λ t. parse_bool t ≡ some true) {x = format_bool true} {y = out} (ground (arith, e)) refl,
)
normalize_bool_reads_back (some false) out e = (
  false,
  subst (λ t. parse_bool t ≡ some false) {x = format_bool false} {y = out} (ground (arith, e)) refl,
)

normalize_enum_reads_back :
    (value : Text) (allowed : List Text) (out : Text)
    → normalize_enum value allowed ≡ ok out
    → Some (λ a. out ≡ a) allowed
unfolding normalize_enum
normalize_enum_reads_back value [] out e = cc
normalize_enum_reads_back value (a ∷ rest) out e = elim (Bool-cases (equal_fold value a)) [
  | inl same ↦ here (ground (arith, same, e))
  | inr other ↦ there (normalize_enum_reads_back value rest out (simp other at e))
]

normalize_as-ReadsBack :
    (net : Packages) (d : Definition) (value : Text) (kind : SettingType) (out : Text)
    → HasBounds d kind
    → normalize_as net d value kind ≡ ok out
    → ReadsBack d kind out
unfolding normalize_as ReadsBack
normalize_as-ReadsBack net d value int_setting out b e =
    normalize_int_reads_back d.min_int d.max_int (atoi value) out b.0 b.1 b.2 e
normalize_as-ReadsBack net d value bool_setting out b e =
    normalize_bool_reads_back (parse_bool value) out e
normalize_as-ReadsBack net d value enum_setting out b e =
    normalize_enum_reads_back value d.allowed_values out e
normalize_as-ReadsBack net d value string_setting out b e = tt
normalize_as-ReadsBack net d value no_setting out b e = tt

definitions-HasBounds : All (λ d. HasBounds d d.kind) agent_setting_definitions
definitions-HasBounds = omega arith

find_definition-All {κ} :
    (P : Definition → Type κ) (key : Text) (ds : List Definition) (d : Definition)
    → All P ds
    → find_definition key ds ≡ some d
    → P d × (text_eq d.key key ≡ true)
unfolding find_definition
find_definition-All P key [] d a e = cc
find_definition-All P key (x ∷ ds) d a e =
    go (find_definition key ds) (find_definition-All P key ds d a.1) e
  where
    go :
        (o : Option Definition)
        → (o ≡ some d → P d × (text_eq d.key key ≡ true))
        → elim o as (λ _. Option Definition) [
          | some y ↦ some y
          | none ↦ if text_eq x.key key then some x else none
        ]
          ≡ some d
        → P d × (text_eq d.key key ≡ true)
    go (some y) r q = r q
    go none r q = elim (Bool-cases (text_eq x.key key)) [
      | inl same ↦
          subst (λ y. P y × (text_eq y.key key ≡ true)) (ground (arith, same, q)) (a.0, same)
      | inr other ↦ ground (arith, other, q)
    ]

bounds_of :
    (key : Text) (d : Definition)
    → agent_setting_definition_by_key key ≡ some d
    → HasBounds d d.kind × (text_eq d.key (trim_space (to_lower key)) ≡ true)
unfolding agent_setting_definition_by_key
bounds_of key d e =
    find_definition-All (λ d. HasBounds d d.kind) (trim_space (to_lower key))
      agent_setting_definitions d definitions-HasBounds e

-- A definition of the table stands under the key's trimmed lower-case form, and the value reads back
-- as its kind.
pub record Accepted (key out : Text) : Type 0 where
  pub definition : Definition
  pub found : agent_setting_definition_by_key key ≡ some definition
  pub named : definition.key ≡ trim_space (to_lower key)
  pub reads : ReadsBack definition definition.kind out

-- A value that the check accepts belongs to a definition of the table, under the key's trimmed lower-case
-- form, and what the check returns reads back: for an integer setting Atoi gives a number within the
-- definition's two bounds, for a Boolean one ParseBool gives a truth value, and for an enumeration it is an
-- allowed value as the table spells it. The callers that drop the errors of those functions rely on this.
pub normalize_agent_setting_value-ReadsBack :
    (net : Packages) (key raw out : Text)
    → normalize_agent_setting_value net key raw ≡ ok out
    → Accepted key out
unfolding normalize_agent_setting_value
normalize_agent_setting_value-ReadsBack net key raw out h =
    go (agent_setting_definition_by_key key) refl h
  where
    go :
        (o : Option Definition)
        → agent_setting_definition_by_key key ≡ o
        → elim o as (λ _. Result SettingError Text) [
          | none ↦ err SettingError.unknown_key
          | some d ↦ normalize_as net d (trim_space raw) d.kind
        ]
          ≡ ok out
        → Accepted key out
    go none e q = cc
    go (some d) e q =
        let f = bounds_of key d e in
        record {
          definition = d;
          found = e;
          named = (text_eq_iff d.key (trim_space (to_lower key))).0 f.1;
          reads = normalize_as-ReadsBack net d (trim_space raw) d.kind out f.0 q;
        }
