-- ===== src/Command/Parse/Quoting.antt =====
-- Every argument vector can be written for the parser of pkg/securityruntime/command_parse.go.
use mathlib.Core.List.{append-nil, append_assoc}
use labtether_linux.Base.{
  ℕ, ◌≤◌, ◌≡◌, refl, ap, sym, ◌∙◌, Bool, true, false, ◌||◌, List, [], ◌∷◌, ◌++◌, ltb, ◌==◌, any,
  arith,
}
use labtether_linux.Base.Result.{ok}
use labtether_linux.Base.Text.{Text, byte_len, is_empty, trim_space}
use labtether_linux.Command.Parse.{
  Scan, flush, scan_escaped, scan_quoted, scan_plain, scan_char, scan_all, finish, checked_args,
  is_newline, max_command_bytes, parse_command_line,
}

-- A backslash before each character.
unfoldable pub escape : Text → Text
escape [] = []
escape (c ∷ s) = 0x5c ∷ c ∷ escape s

-- Two quotes, so that an empty argument is one too, the escaped text, and a blank.
unfoldable pub render : List Text → Text
render [] = []
render (a ∷ as_) = 0x27 ∷ 0x27 ∷ (escape a ++ (0x20 ∷ render as_))

-- Neither a line end nor a NUL byte.
abbrev pub is_bad : ℕ → Bool
is_bad c = is_newline c || (c == 0)

abbrev pub AllClean : List Text → Type 0
AllClean [] = Unit {0}
AllClean (a ∷ as_) = (any is_bad a ≡ false) × AllClean as_

abbrev inside : List Text → Text → Scan
inside args current = record {
  args = args;
  current = current;
  quote = 0;
  escaped = false;
  have_token = true;
}

abbrev between : List Text → Scan
between args = record { args = args; current = []; quote = 0; escaped = false; have_token = false }

scan_escape :
    (args : List Text) (current a rest : Text)
    → any is_bad a ≡ false
    → scan_all (inside args current) (escape a ++ rest) ≡ scan_all (inside args (current ++ a)) rest
unfolding scan_all escape scan_char scan_plain scan_escaped
scan_escape args current [] rest h =
    ap (λ c. scan_all (inside args c) rest) (sym (append-nil current))
scan_escape args current (c ∷ a) rest h =
    let plain : is_newline c ≡ false = ground arith in
    let tail : any is_bad a ≡ false = ground arith in
    rw plain (
      scan_escape args (current ++ (c ∷ [])) a rest tail
      ∙ ap (λ k. scan_all (inside args k) rest) (append_assoc current (c ∷ []) a))

scan_render :
    (args as_ : List Text)
    → AllClean as_
    → scan_all (between args) (render as_) ≡ ok (between (args ++ as_))
unfolding render
scan_render args [] h = unfold scan_all in ap (λ l. ok (between l)) (sym (append-nil args))
scan_render args (a ∷ as_) h =
    quotes
    ∙ scan_escape args [] a (0x20 ∷ render as_) h.0
    ∙ blank
    ∙ scan_render (args ++ (a ∷ [])) as_ h.1
    ∙ ap (λ l. ok (between l)) (append_assoc args (a ∷ []) as_)
  where
    quotes :
        scan_all (between args) (0x27 ∷ 0x27 ∷ (escape a ++ (0x20 ∷ render as_)))
        ≡ scan_all (inside args []) (escape a ++ (0x20 ∷ render as_))
    quotes = unfold scan_all scan_char scan_plain scan_quoted in refl

    blank :
        scan_all (inside args a) (0x20 ∷ render as_)
        ≡ scan_all (between (args ++ (a ∷ []))) (render as_)
    blank = unfold scan_all scan_char scan_plain flush in refl

escape-clean :
    (a rest : Text)
    → any is_bad a ≡ false
    → any (λ r. r == 0) rest ≡ false
    → any (λ r. r == 0) (escape a ++ rest) ≡ false
unfolding escape
escape-clean [] rest h k = k
escape-clean (c ∷ a) rest h k = ground (arith, escape-clean a rest (ground arith) k)

render-clean : (as_ : List Text) → AllClean as_ → any (λ r. r == 0) (render as_) ≡ false
unfolding render
render-clean [] h = refl
render-clean (a ∷ as_) h = escape-clean a (0x20 ∷ render as_) h.0 (render-clean as_ h.1)

-- Round trip: an argument vector whose texts hold no line end and no NUL byte, and whose first text
-- is not blank, comes back from the parser unchanged, whatever quotes, blanks and shell operators it
-- holds, if its rendering is within the size limit.
pub parse_command_line-render :
    (name : Text) (rest : List Text)
    → AllClean (name ∷ rest)
    → is_empty (trim_space name) ≡ false
    → byte_len (render (name ∷ rest)) ≤ max_command_bytes
    → parse_command_line (render (name ∷ rest)) ≡ ok (name ∷ rest)
unfolding parse_command_line
parse_command_line-render name rest clean full short =
    rw
      (
        fits,
        render-clean (name ∷ rest) clean,
        scan_render [] (name ∷ rest) clean,
        parse_command_line,
      )
      done
  where
    fits : ltb max_command_bytes (byte_len (render (name ∷ rest))) ≡ false
    fits = ground arith

    done : finish (between (name ∷ rest)) ≡ ok (name ∷ rest)
    done = unfold finish flush checked_args in rw full
