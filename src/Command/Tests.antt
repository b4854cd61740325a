-- ===== src/Command/Tests.antt =====
-- Runs of the command policy of pkg/securityruntime/command.go.
use labtether_linux.Base.{
  ◌==◌, ◌||◌, ◌≡◌, ◌≢◌, refl, true, false, none, some, List, [], ◌∷◌, arith, any, Some, ◌≤◌, ◌⊎◌,
}
use labtether_linux.Base.Result.{ok, err}
use labtether_linux.Base.Text.{
  Text, codes, text_eq, is_empty, in_list, to_lower, trim_space, fields, join, contains, is_space,
  trim_left, equal_fold, has_suffix, lower_char, has_prefix, fields_from, byte_len, utf8_width,
  split, split_from, parse_bool,
}
use labtether_linux.Command.Env.{
  Env, assoc, assign, cloned, set_runtime_env_overrides, lookup_env, raw_env, parse_bool_env,
  non_blank, parse_csv_env,
}
use labtether_linux.Command.Parse.{
  control_operator, starts_fold, parse_command_line, normalize_executable_name,
  normalize_shell_command, contains_command_token, command_args_have_prefix,
  validate_windows_cmd_echo, check_probe_values, scan_all, scan_char, scan_plain, scan_quoted,
  scan_escaped, flush, finish, checked_args, base,
}
use labtether_linux.Command.Parse.Lines.{parse_command_line_accepts}
use labtether_linux.Command.Parse.Quoting.{parse_command_line-render, render, escape}
use labtether_linux.Command.Defaults.{
  default_shell_blocked_tokens, default_shell_blocked_substrings, default_shell_allowlist_prefixes,
  default_allowed_exec_binaries,
}
use labtether_linux.Command.Policy.{
  PolicyError, exec_blocked_binaries, exec_allowed_binaries, exec_allowlist_mode,
  exec_allowlist_accept_risk, shell_blocked_substrings, shell_allowlist_prefixes, to_set,
  validate_exec_binary, holds_substring, holds_token, fits_prefix, check_echo, check_prefixes,
  validate_args, validate_shell_command, new_command_context, new_validated_shell_command_context,
}
use labtether_linux.Command.Policy.Exec.{validate_exec_binary_passes, Names}
use labtether_linux.Command.Policy.Started.{
  IsCleared, new_validated_shell_command_context-IsCleared,
}
use labtether_linux.Command.Policy.Shell.{validate_shell_command_blocks, words, HasPhrase}
use labtether_linux.Command.Policy.Allowlist.{
  validate_shell_command_allowlisted, Allows, IsEchoProbe,
}

-- All that a run of the policy calls, under one name.
runs : Unit {0}
unfolding text_eq in_list to_lower trim_space fields join contains is_space trim_left equal_fold
    has_suffix lower_char has_prefix fields_from byte_len utf8_width split split_from parse_bool
    assoc assign cloned set_runtime_env_overrides lookup_env raw_env parse_bool_env non_blank
    parse_csv_env starts_fold parse_command_line normalize_executable_name normalize_shell_command
    contains_command_token command_args_have_prefix validate_windows_cmd_echo check_probe_values
    scan_all scan_char scan_plain scan_quoted scan_escaped flush finish checked_args base
    default_shell_blocked_tokens default_shell_blocked_substrings default_shell_allowlist_prefixes
    default_allowed_exec_binaries to_set validate_exec_binary holds_substring holds_token
    fits_prefix check_echo check_prefixes validate_args validate_shell_command new_command_context
    new_validated_shell_command_context
runs = tt

abbrev plain_env : Env
plain_env = record { process = λ k. none; overrides = [] }

-- An environment that blocks `docker` by a path in the block list.
abbrev blocking_env : Env
blocking_env = record {
  process = λ k. none;
  overrides = (exec_blocked_binaries, codes "nc, /usr/bin/Docker.exe") ∷ [];
}

abbrev docker_ps : Text
docker_ps = codes "Docker ps -a"

parses_quotes :
    parse_command_line (codes "grep 'a b' c\\ d")
    ≡ ok (codes "grep" ∷ codes "a b" ∷ codes "c d" ∷ [])
unfolding runs
parses_quotes = refl

refuses_pipe : parse_command_line (codes "ls | cat") ≡ err (control_operator b'|')
unfolding runs
refuses_pipe = refl

refuses_reboot :
    validate_shell_command plain_env (codes "ls reboot") ≡ some PolicyError.blocked_by_safety_policy
unfolding runs
refuses_reboot = refl

refuses_phrase :
    validate_shell_command plain_env (codes "echo  MKFS'.'ext4")
    ≡ some PolicyError.blocked_by_safety_policy
unfolding runs
refuses_phrase = refl

docker_ps_parses : parse_command_line docker_ps ≡ ok (codes "Docker" ∷ codes "ps" ∷ codes "-a" ∷ [])
unfolding runs
docker_ps_parses = refl

docker_ps_accepted : validate_shell_command plain_env docker_ps ≡ none
unfolding runs
docker_ps_accepted = refl

docker_ps_runs :
    new_validated_shell_command_context plain_env docker_ps
    ≡ ok (codes "Docker", codes "ps" ∷ codes "-a" ∷ [])
unfolding runs
docker_ps_runs = refl

-- The vector `echo`, `a; b` and the empty text, written and read back.
abbrev probe : List Text
probe = codes "a; b'" ∷ [] ∷ []

parse_command_line_accepts_example :
    (any (λ r. (r == 0x0a) || (r == 0x0d)) docker_ps ≡ false)
    × (any (λ r. r == 0) docker_ps ≡ false)
    × (byte_len docker_ps ≤ 65536)
    × (name : Text) × (rest : List Text) × (codes "Docker" ∷ codes "ps" ∷ codes "-a" ∷ []
        ≡ name ∷ rest)
    × (is_empty (trim_space name) ≡ false)
parse_command_line_accepts_example = parse_command_line_accepts docker_ps _ docker_ps_parses

parse_command_line-render_example :
    parse_command_line (render (codes "echo" ∷ probe)) ≡ ok (codes "echo" ∷ probe)
unfolding runs render escape
parse_command_line-render_example =
    parse_command_line-render (codes "echo") probe (refl, (refl, (refl, tt))) refl (omega arith)

runs_blocked :
    validate_exec_binary blocking_env (codes "DOCKER") ≡ some (PolicyError.blocked (codes "docker"))
unfolding runs
runs_blocked = refl

validate_exec_binary_passes_example :
    (is_empty (normalize_executable_name (codes "ls")) ≡ false)
    × (¬ Some (Names (codes "ls")) (parse_csv_env plain_env exec_blocked_binaries []))
    × ((Some
          (Names (codes "ls"))
          (parse_csv_env plain_env exec_allowed_binaries default_allowed_exec_binaries))
        ⊎ ((parse_bool_env plain_env exec_allowlist_mode true ≡ false)
            × (parse_bool_env plain_env exec_allowlist_accept_risk false ≡ true)))
unfolding runs
validate_exec_binary_passes_example = validate_exec_binary_passes plain_env (codes "ls") refl

new_validated_shell_command_context-IsCleared_example :
    IsCleared plain_env docker_ps (codes "Docker") (codes "ps" ∷ codes "-a" ∷ [])
new_validated_shell_command_context-IsCleared_example =
    new_validated_shell_command_context-IsCleared plain_env docker_ps (codes "Docker")
      (codes "ps" ∷ codes "-a" ∷ []) docker_ps_runs

validate_shell_command_blocks_example :
    (args : List Text) × (parse_command_line docker_ps ≡ ok args)
    × (any (λ t. in_list t (words args)) default_shell_blocked_tokens ≡ false)
    × (¬ Some
        (HasPhrase args)
        (parse_csv_env plain_env shell_blocked_substrings default_shell_blocked_substrings))
validate_shell_command_blocks_example =
    validate_shell_command_blocks plain_env docker_ps docker_ps_accepted

validate_shell_command_allowlisted_example :
    (name : Text) × (rest : List Text) × (parse_command_line docker_ps ≡ ok (name ∷ rest))
    × Some
        (Allows (name ∷ rest))
        (parse_csv_env plain_env shell_allowlist_prefixes default_shell_allowlist_prefixes)
    × ((normalize_executable_name name ≢ codes "cmd") ⊎ IsEchoProbe (name ∷ rest))
unfolding runs
validate_shell_command_allowlisted_example =
    validate_shell_command_allowlisted plain_env docker_ps refl docker_ps_accepted
