-- ===== src/Command/Policy/Shell.antt =====
-- Which remote commands pkg/securityruntime/command.go accepts.
use labtether_linux.Base.{
  ◌≡◌, refl, sym, ap, ◌∙◌, Bool, true, false, ◌&&◌, not, none, List, [], ◌∷◌, arith, any, all,
  &&_true, Some, here, there,
}
use labtether_linux.Base.Result.{Result, ok, err}
use labtether_linux.Base.Text.{
  Text, codes, text_eq, text_eq_iff, is_empty, in_list, to_lower, trim_space, fields, join,
  is_space, trim_left,
}
use labtether_linux.Base.Words.{fields-join, Occurs, contains-Occurs}
use labtether_linux.Command.Env.{Env, parse_csv_env}
use labtether_linux.Command.Parse.{
  ParseError, parse_command_line, normalize_shell_command, contains_command_token,
}
use labtether_linux.Command.Defaults.{
  default_shell_blocked_tokens, default_shell_blocked_substrings,
}
use labtether_linux.Command.Policy.{
  shell_blocked_substrings, holds_substring, holds_token, validate_args, validate_shell_command,
}

-- The words that the policy looks at: of the lowered arguments, joined by blanks.
abbrev pub words : List Text → List Text
words args = fields (to_lower (trim_space (join args (codes " "))))

-- A text in lower case, with one blank between its words.
abbrev pub squeezed : Text → Text
squeezed s = join (fields (to_lower (trim_space s))) (codes " ")

-- A blocked phrase that has a word, and stands in the text of the arguments, both squeezed.
abbrev pub HasPhrase : List Text → Text → Type 0
HasPhrase args phrase =
    (is_empty (squeezed phrase) ≡ false)
    × Occurs (squeezed phrase) (squeezed (join args (codes " ")))

words-normalize_shell_command :
    (args : List Text) → fields (normalize_shell_command (join args (codes " "))) ≡ words args
unfolding normalize_shell_command
words-normalize_shell_command args = fields-join (to_lower (trim_space (join args (codes " "))))

holds_substring-HasPhrase :
    (args phrases : List Text)
    → holds_substring (normalize_shell_command (join args (codes " "))) phrases ≡ false
    → ¬ Some (HasPhrase args) phrases
unfolding holds_substring normalize_shell_command
holds_substring-HasPhrase args [] h m = elim m [ ]
holds_substring-HasPhrase args (b ∷ bs) h (here (full, found)) =
    contains-Occurs (squeezed (join args (codes " "))) (squeezed b) (ground (arith, h, full)) found
holds_substring-HasPhrase args (b ∷ bs) h (there m) =
    holds_substring-HasPhrase args bs (ground (arith, h)) m

-- A token that lowering and trimming leave as it is.
is_canonical : Text → Bool
is_canonical t = text_eq (to_lower (trim_space t)) t && not (is_empty t)

default_tokens_canonical : all is_canonical default_shell_blocked_tokens ≡ true
unfolding is_canonical to_lower trim_space trim_left is_space text_eq default_shell_blocked_tokens
default_tokens_canonical = refl

holds_token-any :
    (normalized : Text) (ts : List Text)
    → all is_canonical ts ≡ true
    → holds_token normalized ts ≡ any (λ t. in_list t (fields normalized)) ts
unfolding holds_token contains_command_token is_canonical
holds_token-any normalized [] h = refl
holds_token-any normalized (t ∷ ts) h =
    let (c, k) = &&_true (is_canonical t) (all is_canonical ts) h in
    let (e, n) = &&_true (text_eq (to_lower (trim_space t)) t) (not (is_empty t)) c in
    rw ((text_eq_iff (to_lower (trim_space t)) t).0 e, n, holds_token-any normalized ts k)

pub validate_shell_command_stages :
    (env : Env) (command : Text)
    → validate_shell_command env command ≡ none
    → (args : List Text) × (parse_command_line command ≡ ok args) × (validate_args env args ≡ none)
unfolding validate_shell_command
validate_shell_command_stages env command h = go (parse_command_line command) refl
  where
    go :
        (r : Result ParseError (List Text))
        → parse_command_line command ≡ r
        → (args : List Text) × (parse_command_line command ≡ ok args)
          × (validate_args env args ≡ none)
    go (ok args) e = (args, e, rw (e, validate_shell_command) at h)
    go (err x) e = cc (rw (e, validate_shell_command) at h)

-- An accepted command parses, and no word of it is one of the blocked power commands, whatever the
-- settings are, those that switch the allow list off included; nor does a blocked phrase stand in it,
-- whatever their letter case and the blanks between their words.
pub validate_shell_command_blocks :
    (env : Env) (command : Text)
    → validate_shell_command env command ≡ none
    → (args : List Text) × (parse_command_line command ≡ ok args)
      × (any (λ t. in_list t (words args)) default_shell_blocked_tokens ≡ false)
      × (¬ Some
          (HasPhrase args)
          (parse_csv_env env shell_blocked_substrings default_shell_blocked_substrings))
validate_shell_command_blocks env command h =
    let (args, e, v) = validate_shell_command_stages env command h in
    let normalized = normalize_shell_command (join args (codes " ")) in
    (
      args,
      e,
      ap (λ ws. any (λ t. in_list t ws) default_shell_blocked_tokens)
            (sym (words-normalize_shell_command args))
          ∙ sym (holds_token-any normalized default_shell_blocked_tokens default_tokens_canonical)
          ∙ (unfold validate_args in ground (arith, v)),
      holds_substring-HasPhrase args _ (unfold validate_args in ground (arith, v)),
    )
