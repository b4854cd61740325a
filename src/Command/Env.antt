-- ===== src/Command/Env.antt =====
-- The settings of pkg/securityruntime/command.go: runtime overrides over the process environment.
use labtether_linux.Base.{Bool, Option, none, some, List, [], ◌∷◌, if◌then◌else◌}
use labtether_linux.Base.Text.{Text, text_eq, trim_space, is_empty, parse_bool, split}

-- `os.LookupEnv`, and the overrides that `SetRuntimeEnvOverrides` put in place (none: `[]`).
pub record Env : Type 0 where
  pub process : Text → Option Text
  pub overrides : List (Text × Text)

unfoldable pub assoc : Text → List (Text × Text) → Option Text
assoc k [] = none
assoc k ((j, v) ∷ m) = if text_eq j k then some v else assoc k m

unfoldable pub assign : Text → Text → List (Text × Text) → List (Text × Text)
assign k v [] = (k, v) ∷ []
assign k v ((j, w) ∷ m) = if text_eq j k then (k, v) ∷ m else (j, w) ∷ assign k v m

-- The loop of `SetRuntimeEnvOverrides` over the pairs of its map, in the order of the iteration.
unfoldable pub cloned : List (Text × Text) → List (Text × Text) → List (Text × Text)
cloned out [] = out
cloned out ((k, v) ∷ values) =
    cloned (if is_empty (trim_space k) then out else assign (trim_space k) (trim_space v) out)
      values

unfoldable pub set_runtime_env_overrides : Env → List (Text × Text) → Env
set_runtime_env_overrides env values = record env { overrides = cloned [] values }

-- The value, and whether it is set.
unfoldable pub lookup_env : Env → Text → Option Text
lookup_env env key = elim (assoc key env.overrides) [ some v ↦ some v | none ↦ env.process key ]

-- What `lookupEnv` leaves in `raw`, trimmed: the empty text for an unset key.
unfoldable pub raw_env : Env → Text → Text
raw_env env key = elim (lookup_env env key) [ some v ↦ trim_space v | none ↦ [] ]

unfoldable pub parse_bool_env : Env → Text → Bool → Bool
parse_bool_env env key fallback = elim (parse_bool (raw_env env key)) [
  | some b ↦ b
  | none ↦ fallback
]

-- The entries of a comma-separated list that are not blank, trimmed.
unfoldable pub non_blank : List Text → List Text
non_blank [] = []
non_blank (p ∷ ps) = if is_empty (trim_space p) then non_blank ps else trim_space p ∷ non_blank ps

abbrev pub or_else : List Text → List Text → List Text
or_else [] fallback = fallback
or_else (t ∷ ts) fallback = t ∷ ts

unfoldable pub parse_csv_env : Env → Text → List Text → List Text
parse_csv_env env key fallback =
    if is_empty (raw_env env key)
    then fallback
    else or_else (non_blank (split (raw_env env key) b',')) fallback
