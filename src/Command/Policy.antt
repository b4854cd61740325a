-- ===== src/Command/Policy.antt =====
-- The checks of pkg/securityruntime/command.go before a process is started.
pub mod Exec
pub mod Shell
pub mod Allowlist
pub mod Started
use labtether_linux.Base.{
  Bool, true, false, ◌&&◌, ◌||◌, not, Option, none, some, List, [], ◌∷◌, if◌then◌else◌,
}
use labtether_linux.Base.Result.{Result, ok, err}
use labtether_linux.Base.Text.{
  Text, codes, text_eq, trim_space, is_empty, to_lower, contains, join, in_list,
}
use labtether_linux.Command.Defaults.{
  default_allowed_exec_binaries, default_shell_allowlist_prefixes, default_shell_blocked_substrings,
  default_shell_blocked_tokens,
}
use labtether_linux.Command.Env.{Env, parse_bool_env, parse_csv_env}
use labtether_linux.Command.Parse.{
  ParseError, EchoError, parse_command_line, normalize_executable_name, normalize_shell_command,
  command_args_have_prefix, validate_windows_cmd_echo, contains_command_token,
}

pub data PolicyError : Type 0 where
  name_required risk_not_accepted blocked_by_safety_policy not_in_allowlist : PolicyError
  blocked not_allowlisted : Text → PolicyError
  unparsed : ParseError → PolicyError
  bad_echo : EchoError → PolicyError

-- The keys of the settings.
abbrev pub exec_allowlist_mode : Text
exec_allowlist_mode = codes "LABTETHER_EXEC_ALLOWLIST_MODE"

abbrev pub exec_allowlist_accept_risk : Text
exec_allowlist_accept_risk = codes "LABTETHER_EXEC_ALLOWLIST_ACCEPT_RISK"

abbrev pub exec_allowed_binaries : Text
exec_allowed_binaries = codes "LABTETHER_EXEC_ALLOWED_BINARIES"

abbrev pub exec_blocked_binaries : Text
exec_blocked_binaries = codes "LABTETHER_EXEC_BLOCKED_BINARIES"

abbrev pub shell_allowlist_mode : Text
shell_allowlist_mode = codes "LABTETHER_SHELL_COMMAND_ALLOWLIST_MODE"

abbrev pub shell_allowlist_accept_risk : Text
shell_allowlist_accept_risk = codes "LABTETHER_SHELL_COMMAND_ALLOWLIST_ACCEPT_RISK"

abbrev pub shell_allowlist_prefixes : Text
shell_allowlist_prefixes = codes "LABTETHER_SHELL_COMMAND_ALLOWLIST_PREFIXES"

abbrev pub shell_blocked_substrings : Text
shell_blocked_substrings = codes "LABTETHER_SHELL_COMMAND_BLOCKED_SUBSTRINGS"

-- `toSet` with the names normalized: those that normalize to nothing are left out.
unfoldable pub to_set : List Text → List Text
to_set [] = []
to_set (v ∷ vs) =
    if is_empty (normalize_executable_name v)
    then to_set vs
    else normalize_executable_name v ∷ to_set vs

-- The error of `ValidateExecBinary`, if any.
unfoldable pub validate_exec_binary : Env → Text → Option PolicyError
validate_exec_binary env name =
    let normalized = normalize_executable_name name in
    if is_empty normalized
    then some name_required
    else if in_list normalized (to_set (parse_csv_env env exec_blocked_binaries []))
    then some (blocked normalized)
    else if not (parse_bool_env env exec_allowlist_mode true)
    then (if parse_bool_env env exec_allowlist_accept_risk false
        then none
        else some risk_not_accepted)
    else if in_list normalized
        (to_set (parse_csv_env env exec_allowed_binaries default_allowed_exec_binaries))
    then none
    else some (not_allowlisted normalized)

-- The loop over the blocked substrings.
unfoldable pub holds_substring : Text → List Text → Bool
holds_substring normalized [] = false
holds_substring normalized (b ∷ bs) =
    (not (is_empty (normalize_shell_command b)) && contains normalized (normalize_shell_command b))
    || holds_substring normalized bs

-- The loop over the blocked tokens.
unfoldable pub holds_token : Text → List Text → Bool
holds_token normalized [] = false
holds_token normalized (t ∷ ts) =
    (not (is_empty (to_lower (trim_space t)))
      && contains_command_token normalized (to_lower (trim_space t)))
    || holds_token normalized ts

-- `commandArgsHavePrefix` with a configured prefix; one that does not parse fits nothing.
unfoldable pub fits_prefix : List Text → Text → Bool
fits_prefix args prefix = elim (parse_command_line prefix) [
  | ok prefix_args ↦ command_args_have_prefix args prefix_args
  | err e ↦ false
]

-- The check of an argument vector that fits an allowed prefix.
unfoldable pub check_echo : List Text → Option PolicyError
check_echo [] = none
check_echo (a ∷ as_) =
    if text_eq (normalize_executable_name a) (codes "cmd")
    then elim (validate_windows_cmd_echo (a ∷ as_)) [ none ↦ none | some e ↦ some (bad_echo e) ]
    else none

-- The loop over the allowed prefixes.
unfoldable pub check_prefixes : List Text → List Text → Option PolicyError
check_prefixes args [] = some not_in_allowlist
check_prefixes args (p ∷ ps) =
    if fits_prefix args p then check_echo args else check_prefixes args ps

-- `ValidateShellCommand` after the command is parsed.
unfoldable pub validate_args : Env → List Text → Option PolicyError
validate_args env args =
    let normalized = normalize_shell_command (join args (codes " ")) in
    if holds_substring normalized
      (parse_csv_env env shell_blocked_substrings default_shell_blocked_substrings)
    then some blocked_by_safety_policy
    else if holds_token normalized default_shell_blocked_tokens
    then some blocked_by_safety_policy
    else if not (parse_bool_env env shell_allowlist_mode true)
    then (if parse_bool_env env shell_allowlist_accept_risk false
        then none
        else some risk_not_accepted)
    else check_prefixes args
        (parse_csv_env env shell_allowlist_prefixes default_shell_allowlist_prefixes)

-- The error of `ValidateShellCommand`, if any.
unfoldable pub validate_shell_command : Env → Text → Option PolicyError
validate_shell_command env command = elim (parse_command_line command) [
  | err e ↦ some (unparsed e)
  | ok args ↦ validate_args env args
]

-- `NewCommandContext` and `NewCommand`: the name and arguments of the process to start.
unfoldable pub new_command_context : Env → Text → List Text → Result PolicyError (Text × List Text)
new_command_context env name args = elim (validate_exec_binary env name) [
  | none ↦ ok (name, args)
  | some e ↦ err e
]

abbrev pub start_args : Env → List Text → Result PolicyError (Text × List Text)
start_args env [] = err name_required
start_args env (a ∷ as_) = new_command_context env a as_

-- `NewValidatedShellCommandContext`. The parser never returns an empty vector.
unfoldable pub new_validated_shell_command_context :
    Env → Text → Result PolicyError (Text × List Text)
new_validated_shell_command_context env command = elim (validate_shell_command env command) [
  | some e ↦ err e
  | none ↦ elim (parse_command_line command) [
    | err e ↦ err (unparsed e)
    | ok args ↦ start_args env args
  ]
]
