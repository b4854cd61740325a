-- ===== src/Settings/Apply/Change.antt =====
-- The switch of `applyAgentSettings`: internal/agentcore/settings_runtime.go.
use labtether_linux.Base.{
  Bool, true, false, not, none, some, ◌*◌, ◌+◌, ◌-◌, ◌==◌, if◌then◌else◌, ◌&&◌, ◌||◌, List, [], ◌∷◌,
}
use labtether_linux.Base.Int.{ℤ, pos, negsuc}
use labtether_linux.Base.Decimal.{atoi}
use labtether_linux.Base.Text.{Text, text_eq, trim_space, equal_fold, parse_bool}
use labtether_linux.Settings.Apply.Config.{RuntimeConfig, Batch}

-- What `strconv.Atoi` makes of a normalized number; an error is not looked at.
abbrev pub int_of : Text → ℤ
int_of v = elim (atoi v) [ none ↦ pos 0 | some z ↦ z ]

abbrev pub bool_of : Text → Bool
bool_of v = elim (parse_bool v) [ none ↦ false | some b ↦ b ]

abbrev pub nanoseconds : ℤ → ℤ
nanoseconds (pos n) = pos (n * 1000000000)
nanoseconds (negsuc n) = negsuc ((n + 1) * 1000000000 - 1)

abbrev pub same_int : ℤ → ℤ → Bool
same_int (pos m) (pos n) = m == n
same_int (negsuc m) (negsuc n) = m == n
same_int _ _ = false

abbrev pub same_bool : Bool → Bool → Bool
same_bool a b = (a && b) || (not a && not b)

abbrev pub same_text : Text → Text → Bool
same_text old new = text_eq (trim_space old) new

abbrev pub same_word : Text → Text → Bool
same_word old new = equal_fold (trim_space old) new

-- The new configuration, for which a restart is required, unless the value was the same.
abbrev pub put : Bool → RuntimeConfig → Batch → Batch
put same cfg b =
    if same
    then b
    else record b { runtime = record b.runtime { cfg = cfg }; restart_required = true }

abbrev pub put_quietly : RuntimeConfig → Batch → Batch
put_quietly cfg b = record b { runtime = record b.runtime { cfg = cfg } }

abbrev pub set_interval : Bool → Text → Batch → Batch
set_interval true v b = record b {
  runtime = record b.runtime {
    cfg = record b.runtime.cfg { collect_interval = nanoseconds (int_of v) };
    collect_interval_override = int_of v;
    base_collect_interval = nanoseconds (int_of v);
  };
  needs_persisted_config_write = true;
}
set_interval false v b = record b {
  runtime = record b.runtime {
    cfg = record b.runtime.cfg { heartbeat_interval = nanoseconds (int_of v) };
    heartbeat_interval_override = int_of v;
    base_heartbeat_interval = nanoseconds (int_of v);
  };
  needs_persisted_config_write = true;
}

-- A case that sets a field.
unfoldable pub set_field :
    {A : Type 0}
    → (RuntimeConfig → A → Bool)
    → (Text → A)
    → (A → RuntimeConfig → RuntimeConfig)
    → Text
    → Batch
    → Batch
set_field same read set v b = let c = b.runtime.cfg in put (same c (read v)) (set (read v) c) b

abbrev pub Case : Type 0
Case = Text × (Text → Batch → Batch)

-- The case whose key it is; a key that no case has changes nothing.
unfoldable pub switch : Text → List Case → Text → Batch → Batch
switch key [] v b = b
switch key ((k, f) ∷ cases) v b =
    let rest = switch key cases v b in if text_eq key k then f v b else rest
