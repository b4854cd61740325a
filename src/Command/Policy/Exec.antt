-- ===== src/Command/Policy/Exec.antt =====
-- Which processes pkg/securityruntime/command.go starts at all.
use labtether_linux.Base.{
  ◌≡◌, true, false, none, some, List, [], ◌∷◌, arith, Bool-cases, inl, inr, ◌⊎◌, Some, here, there,
}
use labtether_linux.Base.Result.{ok}
use labtether_linux.Base.Text.{Text, text_eq, text_eq_iff, text_eq_refl, is_empty, in_list}
use labtether_linux.Command.Env.{Env, parse_bool_env, parse_csv_env}
use labtether_linux.Command.Parse.{parse_command_line, normalize_executable_name}
use labtether_linux.Command.Defaults.{default_allowed_exec_binaries}
use labtether_linux.Command.Policy.{
  PolicyError, exec_blocked_binaries, exec_allowed_binaries, exec_allowlist_mode,
  exec_allowlist_accept_risk, to_set, validate_exec_binary, validate_shell_command,
  new_command_context, new_validated_shell_command_context,
}

-- The entry names the same program: both normalize to one name, which is not empty.
abbrev pub Names : Text → Text → Type 0
Names name entry =
    (normalize_executable_name entry ≡ normalize_executable_name name)
    × (is_empty (normalize_executable_name name) ≡ false)

has_name :
    (name : Text) {l : List Text}
    → Some (Names name) l
    → is_empty (normalize_executable_name name) ≡ false
has_name name (here (e, full)) = full
has_name name (there m) = has_name name m

in_list-to_set :
    (name : Text) (l : List Text)
    → is_empty (normalize_executable_name name) ≡ false
    → Some (Names name) l
    → in_list (normalize_executable_name name) (to_set l) ≡ true
unfolding in_list to_set
in_list-to_set name [] full m = elim m [ ]
in_list-to_set name (v ∷ l) full (here (e, _)) =
    rw (e, full, text_eq_refl (normalize_executable_name name))
in_list-to_set name (v ∷ l) full (there m) =
    elim (Bool-cases (is_empty (normalize_executable_name v))) [
      | inl gone ↦ rw gone (in_list-to_set name l full m)
      | inr kept ↦ rw kept (ground (arith, in_list-to_set name l full m))
    ]

to_set-in_list :
    (name : Text) (l : List Text)
    → is_empty (normalize_executable_name name) ≡ false
    → in_list (normalize_executable_name name) (to_set l) ≡ true
    → Some (Names name) l
unfolding in_list to_set
to_set-in_list name [] full h = cc
to_set-in_list name (v ∷ l) full h = elim (Bool-cases (is_empty (normalize_executable_name v))) [
  | inl gone ↦ there (to_set-in_list name l full (rw (gone, to_set) at h))
  | inr kept ↦
      elim (Bool-cases (text_eq (normalize_executable_name v) (normalize_executable_name name))) [
        | inl same ↦ here ((text_eq_iff _ _).0 same, full)
        | inr other ↦ there (to_set-in_list name l full (rw (kept, to_set, in_list, other) at h))
      ]
]

-- A program that an entry of the block list names is refused, whatever the other settings are.
pub validate_exec_binary_blocked :
    (env : Env) (name : Text)
    → Some (Names name) (parse_csv_env env exec_blocked_binaries [])
    → validate_exec_binary env name ≡ some (PolicyError.blocked (normalize_executable_name name))
unfolding validate_exec_binary
validate_exec_binary_blocked env name m =
    let full = has_name name m in
    rw (
      full,
      in_list-to_set name (parse_csv_env env exec_blocked_binaries []) full m,
      validate_exec_binary,
    )

-- A program that passes has a name, no entry of the block list names it, and an entry of the allow list does, or
-- the allow list is switched off and the risk is accepted.
pub validate_exec_binary_passes :
    (env : Env) (name : Text)
    → validate_exec_binary env name ≡ none
    → (is_empty (normalize_executable_name name) ≡ false)
      × (¬ Some (Names name) (parse_csv_env env exec_blocked_binaries []))
      × ((Some (Names name) (parse_csv_env env exec_allowed_binaries default_allowed_exec_binaries))
          ⊎ ((parse_bool_env env exec_allowlist_mode true ≡ false)
              × (parse_bool_env env exec_allowlist_accept_risk false ≡ true)))
unfolding validate_exec_binary
validate_exec_binary_passes env name h =
    elim (Bool-cases (is_empty (normalize_executable_name name))) [
      | inl blank ↦ absurd (blank_refused blank)
      | inr full ↦
          (full, (λ m. ground (arith, h, validate_exec_binary_blocked env name m)), split full)
    ]
  where
    blank_refused : is_empty (normalize_executable_name name) ≡ true → ⊥
    blank_refused b = ground arith

    split :
        is_empty (normalize_executable_name name) ≡ false
        → (Some
            (Names name)
            (parse_csv_env env exec_allowed_binaries default_allowed_exec_binaries))
          ⊎ ((parse_bool_env env exec_allowlist_mode true ≡ false)
              × (parse_bool_env env exec_allowlist_accept_risk false ≡ true))
    split full = elim (Bool-cases (parse_bool_env env exec_allowlist_mode true)) [
      | inl on ↦ inl (to_set-in_list name _ full (ground arith))
      | inr off ↦ inr (off, ground arith)
    ]

pub new_validated_shell_command_context_stages :
    (env : Env) (command name : Text) (args : List Text)
    → new_validated_shell_command_context env command ≡ ok (name, args)
    → (validate_shell_command env command ≡ none)
      × (parse_command_line command ≡ ok (name ∷ args))
      × (validate_exec_binary env name ≡ none)
unfolding new_validated_shell_command_context new_command_context
new_validated_shell_command_context_stages env command name args h = ground arith
