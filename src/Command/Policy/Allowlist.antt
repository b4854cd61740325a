-- ===== src/Command/Policy/Allowlist.antt =====
-- The allow list for remote commands that pkg/securityruntime/command.go enforces.
use labtether_linux.Base.{
  ◌≡◌, ◌≢◌, refl, ap, ap₂, subst, ◌∙◌, true, false, none, List, [], ◌∷◌, ◌++◌, arith, Bool-cases,
  inl, inr, ◌⊎◌, Some, here, there, all, All, &&_true, map,
}
use labtether_linux.Base.Result.{Result, ok, err}
use labtether_linux.Base.Text.{Text, codes, text_eq, text_eq_iff, is_empty, to_lower, equal_fold}
use labtether_linux.Command.Env.{Env, parse_bool_env, parse_csv_env}
use labtether_linux.Command.Parse.{
  ParseError, starts_fold, parse_command_line, normalize_executable_name, command_args_have_prefix,
  validate_windows_cmd_echo, check_probe_values, is_probe_char,
}
use labtether_linux.Command.Defaults.{default_shell_allowlist_prefixes}
use labtether_linux.Command.Policy.Shell.{validate_shell_command_stages}
use labtether_linux.Command.Parse.Lines.{parse_command_line_accepts}
use labtether_linux.Command.Policy.{
  shell_allowlist_mode, shell_allowlist_prefixes, fits_prefix, check_echo, check_prefixes,
  validate_args, validate_shell_command,
}

check_prefixes-Some :
    (args ps : List Text)
    → check_prefixes args ps ≡ none
    → Some (λ p. fits_prefix args p ≡ true) ps × (check_echo args ≡ none)
unfolding check_prefixes
check_prefixes-Some args [] h = cc
check_prefixes-Some args (p ∷ ps) h = elim (Bool-cases (fits_prefix args p)) [
  | inl fits ↦ (here fits, ground (arith, h))
  | inr other ↦ let (m, c) = check_prefixes-Some args ps (ground (arith, h)) in (there m, c)
]

-- The vector begins with the prefix, up to the case of the letters.
abbrev pub BeginsWith : List Text → List Text → Type 0
BeginsWith args prefix =
    (front : List Text) × (rest : List Text) × (args ≡ front ++ rest)
    × (map to_lower front ≡ map to_lower prefix)

starts_fold-BeginsWith :
    (args prefix : List Text) → starts_fold args prefix ≡ true → BeginsWith args prefix
unfolding starts_fold equal_fold
starts_fold-BeginsWith args [] h = ([], args, refl, refl)
starts_fold-BeginsWith [] (p ∷ ps) h = cc
starts_fold-BeginsWith (a ∷ as_) (p ∷ ps) h =
    let (e, k) = &&_true (text_eq (to_lower a) (to_lower p)) (starts_fold as_ ps) h in
    let (front, rest, f, g) = starts_fold-BeginsWith as_ ps k in
    (a ∷ front, rest, ap (◌∷◌ a) f, ap₂ ◌∷◌ ((text_eq_iff _ _).0 e) g)

-- The entry of the allow list is a command line of at least one word that the vector begins with.
abbrev pub Allows : List Text → Text → Type 0
Allows args entry =
    (word : Text) × (more : List Text) × (parse_command_line entry ≡ ok (word ∷ more))
    × BeginsWith args (word ∷ more)

fits_prefix-Allows :
    (args : List Text) (entry : Text) → fits_prefix args entry ≡ true → Allows args entry
unfolding fits_prefix
fits_prefix-Allows args entry h = go (parse_command_line entry) refl
  where
    go : (r : Result ParseError (List Text)) → parse_command_line entry ≡ r → Allows args entry
    go (err x) e = cc (rw (e, fits_prefix) at h)
    go (ok []) e = unfold command_args_have_prefix in cc (rw (e, fits_prefix) at h)
    go (ok (w ∷ ws)) e = (
      w,
      ws,
      e,
      starts_fold-BeginsWith args (w ∷ ws)
          (unfold command_args_have_prefix in (rw (e, fits_prefix) at h)),
    )

Some-map : {P Q : Text → Type 0} (f : (t : Text) → P t → Q t) {l : List Text} → Some P l → Some Q l
Some-map f (here p) = here (f _ p)
Some-map f (there m) = there (Some-map f m)

-- A command line of `cmd /c echo` with at least one value, each not empty and of harmless letters.
abbrev pub IsEchoProbe : List Text → Type 0
IsEchoProbe args =
    (cmd : Text) × (slash_c : Text) × (echo : Text) × (value : Text) × (values : List Text) × (args
      ≡ cmd ∷ slash_c ∷ echo ∷ value ∷ values)
    × (to_lower slash_c ≡ codes "/c")
    × (to_lower echo ≡ codes "echo")
    × All (λ v. (is_empty v ≡ false) × (all is_probe_char v ≡ true)) (value ∷ values)

check_probe_values-All :
    (vs : List Text)
    → check_probe_values vs ≡ none
    → All (λ v. (is_empty v ≡ false) × (all is_probe_char v ≡ true)) vs
unfolding check_probe_values
check_probe_values-All [] h = tt
check_probe_values-All (v ∷ vs) h =
    let k : check_probe_values vs ≡ none = ground arith in
    ((ground arith, ground arith), check_probe_values-All vs k)

validate_windows_cmd_echo-IsEchoProbe :
    (args : List Text) → validate_windows_cmd_echo args ≡ none → IsEchoProbe args
unfolding validate_windows_cmd_echo
validate_windows_cmd_echo-IsEchoProbe [] h = cc
validate_windows_cmd_echo-IsEchoProbe (a ∷ []) h = cc
validate_windows_cmd_echo-IsEchoProbe (a ∷ b ∷ []) h = cc
validate_windows_cmd_echo-IsEchoProbe (a ∷ b ∷ c ∷ []) h = cc
validate_windows_cmd_echo-IsEchoProbe (a ∷ b ∷ c ∷ v ∷ vs) h = (
  a,
  b,
  c,
  v,
  vs,
  refl,
  (text_eq_iff _ _).0 (unfold equal_fold in ground arith),
  (text_eq_iff _ _).0 (unfold equal_fold in ground arith),
  check_probe_values-All (v ∷ vs) (ground arith),
)

check_echo-safe :
    (name : Text) (rest : List Text)
    → check_echo (name ∷ rest) ≡ none
    → (normalize_executable_name name ≢ codes "cmd") ⊎ IsEchoProbe (name ∷ rest)
unfolding check_echo
check_echo-safe name rest h =
    elim (Bool-cases (text_eq (normalize_executable_name name) (codes "cmd"))) [
      | inl is_cmd ↦ inr (validate_windows_cmd_echo-IsEchoProbe (name ∷ rest) (ground (arith, h)))
      | inr other ↦
          inl (λ e. cc ((text_eq_iff (normalize_executable_name name) (codes "cmd")).1 e, other))
    ]

-- While the allow list is on, an accepted command begins with an entry of it, up to the case of the
-- letters, and if its program is `cmd` it is an echo probe of harmless values.
pub validate_shell_command_allowlisted :
    (env : Env) (command : Text)
    → parse_bool_env env shell_allowlist_mode true ≡ true
    → validate_shell_command env command ≡ none
    → (name : Text) × (rest : List Text) × (parse_command_line command ≡ ok (name ∷ rest))
      × Some
          (Allows (name ∷ rest))
          (parse_csv_env env shell_allowlist_prefixes default_shell_allowlist_prefixes)
      × ((normalize_executable_name name ≢ codes "cmd") ⊎ IsEchoProbe (name ∷ rest))
validate_shell_command_allowlisted env command on h =
    let (args, e, v) = validate_shell_command_stages env command h in
    let (_, _, _, name, rest, f, _) = parse_command_line_accepts command args e in
    let c : check_prefixes args prefixes ≡ none = unfold validate_args in ground (arith, v, on) in
    let (m, echo) = check_prefixes-Some args prefixes c in
    (
      name,
      rest,
      e ∙ ap ok f,
      subst (λ l. Some (Allows l) prefixes) f (Some-map (fits_prefix-Allows args) m),
      check_echo-safe name rest (subst (λ l. check_echo l ≡ none) f echo),
    )
  where
    prefixes : List Text
    prefixes = parse_csv_env env shell_allowlist_prefixes default_shell_allowlist_prefixes
