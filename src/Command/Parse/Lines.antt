-- ===== src/Command/Parse/Lines.antt =====
-- What the parser of pkg/securityruntime/command_parse.go refuses.
use labtether_linux.Base.{
  ℕ, ◌≤◌, ◌≡◌, refl, false, List, [], ◌∷◌, ltb, ◌==◌, any, arith, Bool-cases, inl, inr,
}
use labtether_linux.Base.Result.{ok, bind_steps}
use labtether_linux.Base.Text.{Text, byte_len, is_empty, trim_space}
use labtether_linux.Command.Parse.{
  Scan, start, flush, scan_escaped, scan_quoted, scan_plain, scan_char, scan_all, finish,
  checked_args, is_newline, max_command_bytes, parse_command_line,
}

-- No open quote is a line end.
abbrev QuoteIsPlain : Scan → Type 0
QuoteIsPlain s = is_newline s.quote ≡ false

scan_char_accepts :
    (s : Scan) (r : ℕ) (t : Scan)
    → QuoteIsPlain s
    → scan_char s r ≡ ok t
    → (is_newline r ≡ false) × QuoteIsPlain t
unfolding scan_char scan_escaped scan_quoted scan_plain flush
scan_char_accepts s r t q h = ground arith

scan_all_accepts :
    (s : Scan) (raw : Text) (t : Scan)
    → QuoteIsPlain s
    → scan_all s raw ≡ ok t
    → any is_newline raw ≡ false
unfolding scan_all
scan_all_accepts s [] t q h = refl
scan_all_accepts s (r ∷ raw) t q h =
    let (u, f, e) = bind_steps (scan_char s r) (λ v. scan_all v raw) h in
    let a = scan_char_accepts s r u q e in rw a.0 (scan_all_accepts u raw t a.1 f)

checked_args_accepts :
    (l args : List Text)
    → checked_args l ≡ ok args
    → (name : Text) × (rest : List Text) × (args ≡ name ∷ rest)
      × (is_empty (trim_space name) ≡ false)
unfolding checked_args
checked_args_accepts [] args h = cc
checked_args_accepts (a ∷ as_) args h = elim (Bool-cases (is_empty (trim_space a))) [
  | inl blank ↦ cc (rw (blank, checked_args) at h)
  | inr full ↦ (a, as_, ground (arith, h), full)
]

finish_accepts :
    (t : Scan) (args : List Text)
    → finish t ≡ ok args
    → (t.escaped ≡ false) × (t.quote ≡ 0) × (checked_args (flush t).args ≡ ok args)
unfolding finish
finish_accepts t args h = ground arith

-- The stages of a successful parse.
pub parse_command_line_stages :
    (raw : Text) (args : List Text)
    → parse_command_line raw ≡ ok args
    → (byte_len raw ≤ max_command_bytes)
      × (any (λ r. r == 0) raw ≡ false)
      × (t : Scan) × (scan_all start raw ≡ ok t)
      × (finish t ≡ ok args)
unfolding parse_command_line
parse_command_line_stages raw args h = elim (Bool-cases (ltb max_command_bytes (byte_len raw))) [
  | inl long ↦ cc (rw (long, parse_command_line) at h)
  | inr short ↦ elim (Bool-cases (any (λ r. r == 0) raw)) [
    | inl nul ↦ cc (rw (short, nul, parse_command_line) at h)
    | inr clean ↦
        let (t, f, e) =
          bind_steps (scan_all start raw) finish (rw (short, clean, parse_command_line) at h) in
        (ground arith, clean, t, e, f)
  ]
]

-- A command line that the parser accepts is one line without a NUL byte, within the size limit, and
-- names a program that is not blank.
pub parse_command_line_accepts :
    (raw : Text) (args : List Text)
    → parse_command_line raw ≡ ok args
    → (any is_newline raw ≡ false)
      × (any (λ r. r == 0) raw ≡ false)
      × (byte_len raw ≤ max_command_bytes)
      × (name : Text) × (rest : List Text) × (args ≡ name ∷ rest)
      × (is_empty (trim_space name) ≡ false)
parse_command_line_accepts raw args h =
    let (short, clean, t, e, f) = parse_command_line_stages raw args h in
    let (name, rest, g, full) =
      checked_args_accepts (flush t).args args (finish_accepts t args f).2 in
    (scan_all_accepts start raw t refl e, clean, short, name, rest, g, full)
