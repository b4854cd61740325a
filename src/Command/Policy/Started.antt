-- ===== src/Command/Policy/Started.antt =====
-- What starts a process for a remote command: pkg/securityruntime/command.go, from the command line to the process.
use labtether_linux.Base.{
  ◌≡◌, ◌≢◌, subst, true, false, none, List, [], ◌∷◌, arith, Bool-cases, inl, inr, ◌⊎◌, Some, any,
}
use labtether_linux.Base.Result.{ok}
use labtether_linux.Base.Text.{Text, codes, is_empty, in_list}
use labtether_linux.Command.Env.{Env, parse_bool_env, parse_csv_env}
use labtether_linux.Command.Parse.{parse_command_line, normalize_executable_name}
use labtether_linux.Command.Defaults.{
  default_allowed_exec_binaries, default_shell_allowlist_prefixes, default_shell_blocked_substrings,
  default_shell_blocked_tokens,
}
use labtether_linux.Command.Policy.{
  exec_blocked_binaries, exec_allowed_binaries, exec_allowlist_mode, exec_allowlist_accept_risk,
  shell_allowlist_mode, shell_allowlist_accept_risk, shell_allowlist_prefixes,
  shell_blocked_substrings, validate_args, validate_shell_command,
  new_validated_shell_command_context,
}
use labtether_linux.Command.Policy.Shell.{
  words, HasPhrase, validate_shell_command_stages, validate_shell_command_blocks,
}
use labtether_linux.Command.Policy.Allowlist.{
  Allows, IsEchoProbe, validate_shell_command_allowlisted,
}
use labtether_linux.Command.Policy.Exec.{
  Names, validate_exec_binary_passes, new_validated_shell_command_context_stages,
}

-- An entry of the allow list of commands allows the vector, and if its program is `cmd` it is an echo probe.
abbrev pub IsListed : Env → Text → List Text → Type 0
IsListed env name args =
    Some (Allows (name ∷ args))
      (parse_csv_env env shell_allowlist_prefixes default_shell_allowlist_prefixes)
    × ((normalize_executable_name name ≢ codes "cmd") ⊎ IsEchoProbe (name ∷ args))

-- A list is switched off, and its risk is accepted.
abbrev pub IsWaived : Env → Text → Text → Type 0
IsWaived env mode accept_risk =
    (parse_bool_env env mode true ≡ false) × (parse_bool_env env accept_risk false ≡ true)

-- What a process with this name and these arguments needs, for a remote command.
pub record IsCleared (env : Env) (command name : Text) (args : List Text) : Type 0 where
  pub parsed : parse_command_line command ≡ ok (name ∷ args)
  pub no_power_word :
      any (λ t. in_list t (words (name ∷ args))) default_shell_blocked_tokens ≡ false
  pub no_phrase :
      ¬ Some
        (HasPhrase (name ∷ args))
        (parse_csv_env env shell_blocked_substrings default_shell_blocked_substrings)
  pub listed :
      IsListed env name args ⊎ IsWaived env shell_allowlist_mode shell_allowlist_accept_risk
  pub named : is_empty (normalize_executable_name name) ≡ false
  pub not_blocked : ¬ Some (Names name) (parse_csv_env env exec_blocked_binaries [])
  pub program :
      (Some (Names name) (parse_csv_env env exec_allowed_binaries default_allowed_exec_binaries))
      ⊎ IsWaived env exec_allowlist_mode exec_allowlist_accept_risk

ok_injective :
    (command : Text) {args : List Text} {name : Text} {rest : List Text}
    → parse_command_line command ≡ ok args
    → parse_command_line command ≡ ok (name ∷ rest)
    → args ≡ name ∷ rest
ok_injective command p q = cc

validate_shell_command-IsListed :
    (env : Env) (command name : Text) (args : List Text)
    → parse_command_line command ≡ ok (name ∷ args)
    → validate_shell_command env command ≡ none
    → IsListed env name args ⊎ IsWaived env shell_allowlist_mode shell_allowlist_accept_risk
validate_shell_command-IsListed env command name args e h =
    elim (Bool-cases (parse_bool_env env shell_allowlist_mode true)) [
      | inl on ↦
          let (n, r, f, m, echo) = validate_shell_command_allowlisted env command on h in
          let same : n ∷ r ≡ name ∷ args = ok_injective command f e in
          inl (subst (λ l. Listed l) same (m, echo))
      | inr off ↦
          let (vector, f, v) = validate_shell_command_stages env command h in
          inr (off, (unfold validate_args in ground (arith, v, off)))
    ]
  where
    Listed : List Text → Type 0
    Listed [] = ⊥
    Listed (n ∷ r) = IsListed env n r

-- A remote command that gets a process parses to its name and arguments. No word of them is a power command and no
-- blocked phrase stands in them; they begin with an entry of the allow list of commands, a `cmd` being an echo probe, or
-- that list is switched off at an accepted risk. No entry of the block list names the program, and an entry of the allow
-- list of programs does, or that list is switched off at an accepted risk.
pub new_validated_shell_command_context-IsCleared :
    (env : Env) (command name : Text) (args : List Text)
    → new_validated_shell_command_context env command ≡ ok (name, args)
    → IsCleared env command name args
new_validated_shell_command_context-IsCleared env command name args h =
    let (shell, e, exec) = new_validated_shell_command_context_stages env command name args h in
    let (vector, f, power, phrase) = validate_shell_command_blocks env command shell in
    let same : vector ≡ name ∷ args = ok_injective command f e in
    let (full, free, program) = validate_exec_binary_passes env name exec in
    record {
      parsed = e;
      no_power_word =
          subst (λ l. any (λ t. in_list t (words l)) default_shell_blocked_tokens ≡ false) same
            power;
      no_phrase =
          subst
            (λ l.
              ¬ Some (HasPhrase l)
                (parse_csv_env env shell_blocked_substrings default_shell_blocked_substrings))
            same phrase;
      listed = validate_shell_command-IsListed env command name args e shell;
      named = full;
      not_blocked = free;
      program = program;
    }
