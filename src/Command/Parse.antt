-- ===== src/Command/Parse.antt =====
-- The parser of pkg/securityruntime/command_parse.go. A command is a list of code points (the range
-- loop over a Go string that is valid UTF-8); its size limit is in bytes.
pub mod Lines
pub mod Quoting
use labtether_linux.Base.{
  ℕ, ◌*◌, Bool, true, false, ◌&&◌, ◌||◌, Option, none, some, List, [], ◌∷◌, ◌++◌, if◌then◌else◌,
  ltb, leb, ◌==◌, any, all, drop,
}
use labtether_linux.Base.Result.{Result, ok, err, ◌>>=◌}
use labtether_linux.Base.Text.{
  Text, codes, text_eq, trim_space, is_empty, to_lower, equal_fold, has_suffix, byte_len, fields,
  join, in_list,
}
use mathlib.Core.List.{reverse}

-- The errors of `ParseCommandLine`.
pub data ParseError : Type 0 where
  too_long nul_byte multiline incomplete_escape unterminated_quote command_required : ParseError
  control_operator : ℕ → ParseError

-- The variables of the loop; `quote` is 0 outside quotes.
pub record Scan : Type 0 where
  pub args : List Text
  pub current : Text
  pub quote : ℕ
  pub escaped : Bool
  pub have_token : Bool

abbrev pub start : Scan
start = record { args = []; current = []; quote = 0; escaped = false; have_token = false }

unfoldable pub flush : Scan → Scan
flush s =
    if s.have_token
    then record s { args = s.args ++ (s.current ∷ []); current = []; have_token = false }
    else s

abbrev pub is_newline : ℕ → Bool
is_newline r = (r == 0x0a) || (r == 0x0d)

abbrev pub is_control : ℕ → Bool
is_control r =
    (r == b';') || (r == b'|') || (r == b'&') || (r == b'<') || (r == b'>') || (r == b'`')

-- The character goes into the current token.
abbrev pub put : Scan → ℕ → Scan
put s r = record s { current = s.current ++ (r ∷ []); have_token = true }

unfoldable pub scan_escaped : Scan → ℕ → Result ParseError Scan
scan_escaped s r =
    if is_newline r
    then err multiline
    else ok (record s { current = s.current ++ (r ∷ []); have_token = true; escaped = false })

unfoldable pub scan_quoted : Scan → ℕ → Result ParseError Scan
scan_quoted s r =
    if r == s.quote
    then ok (record s { quote = 0; have_token = true })
    else if (r == 0x5c) && (s.quote == 0x22)
    then ok (record s { escaped = true })
    else if is_newline r
    then err multiline
    else ok (put s r)

unfoldable pub scan_plain : Scan → ℕ → Result ParseError Scan
scan_plain s r =
    if (r == 0x27) || (r == 0x22)
    then ok (record s { quote = r; have_token = true })
    else if r == 0x5c
    then ok (record s { escaped = true; have_token = true })
    else if (r == 0x20) || (r == 0x09)
    then ok (flush s)
    else if is_newline r
    then err multiline
    else if is_control r
    then err (control_operator r)
    else ok (put s r)

-- The body of the loop.
unfoldable pub scan_char : Scan → ℕ → Result ParseError Scan
scan_char s r =
    if s.escaped then scan_escaped s r else if s.quote == 0 then scan_plain s r else scan_quoted s r

unfoldable pub scan_all : Scan → Text → Result ParseError Scan
scan_all s [] = ok s
scan_all s (r ∷ raw) = scan_char s r >>= λ t. scan_all t raw

-- The arguments, unless there are none or the first is blank.
unfoldable pub checked_args : List Text → Result ParseError (List Text)
checked_args [] = err command_required
checked_args (a ∷ as_) = if is_empty (trim_space a) then err command_required else ok (a ∷ as_)

unfoldable pub finish : Scan → Result ParseError (List Text)
finish s =
    if s.escaped
    then err incomplete_escape
    else if s.quote == 0
    then checked_args (flush s).args
    else err unterminated_quote

abbrev pub max_command_bytes : ℕ
max_command_bytes = 64 * 1024

unfoldable pub parse_command_line : Text → Result ParseError (List Text)
parse_command_line raw =
    if ltb max_command_bytes (byte_len raw)
    then err too_long
    else if any (λ r. r == 0) raw
    then err nul_byte
    else scan_all start raw >>= finish

-- `filepath.Base` on a path with `/` as separator.
abbrev pub drop_slashes : Text → Text
drop_slashes [] = []
drop_slashes (c ∷ s) = if c == b'/' then drop_slashes s else c ∷ s

abbrev pub until_slash : Text → Text
until_slash [] = []
until_slash (c ∷ s) = if c == b'/' then [] else c ∷ until_slash s

unfoldable pub base : Text → Text
base [] = codes "."
base (c ∷ s) =
    let name = reverse (until_slash (drop_slashes (reverse (c ∷ s)))) in
    if is_empty name then codes "/" else name

abbrev pub slashes : Text → Text
slashes [] = []
slashes (c ∷ s) = (if c == 0x5c then b'/' else c) ∷ slashes s

unfoldable pub normalize_executable_name : Text → Text
normalize_executable_name name =
    let trimmed = trim_space (base (slashes (trim_space name))) in
    let normalized = to_lower trimmed in
    if is_empty (trim_space name)
    then []
    else if is_empty trimmed
    then []
    else if has_suffix normalized (codes ".exe")
    then reverse (drop 4 (reverse normalized))
    else normalized

unfoldable pub normalize_shell_command : Text → Text
normalize_shell_command raw = join (fields (to_lower (trim_space raw))) (codes " ")

-- The comparison loop of `commandArgsHavePrefix`, its test on the lengths included.
unfoldable pub starts_fold : List Text → List Text → Bool
starts_fold args [] = true
starts_fold [] (p ∷ ps) = false
starts_fold (a ∷ as_) (p ∷ ps) = equal_fold a p && starts_fold as_ ps

unfoldable pub command_args_have_prefix : List Text → List Text → Bool
command_args_have_prefix args [] = false
command_args_have_prefix args (p ∷ ps) = starts_fold args (p ∷ ps)

abbrev pub is_probe_char : ℕ → Bool
is_probe_char c =
    (leb b'a' c && leb c b'z')
    || (leb b'A' c && leb c b'Z')
    || (leb b'0' c && leb c b'9')
    || (c == b'.')
    || (c == b'_')
    || (c == b'-')
    || (c == b':')

pub data EchoError : Type 0 where
  not_an_echo empty_value bad_value : EchoError

unfoldable pub check_probe_values : List Text → Option EchoError
check_probe_values [] = none
check_probe_values (a ∷ as_) =
    let rest = check_probe_values as_ in
    if is_empty a then some empty_value else if all is_probe_char a then rest else some bad_value

-- The error of `validateWindowsCmdEcho`, if any.
unfoldable pub validate_windows_cmd_echo : List Text → Option EchoError
validate_windows_cmd_echo (cmd ∷ slash_c ∷ echo ∷ value ∷ values) =
    if text_eq (normalize_executable_name cmd) (codes "cmd")
      && equal_fold slash_c (codes "/c")
      && equal_fold echo (codes "echo")
    then check_probe_values (value ∷ values)
    else some not_an_echo
validate_windows_cmd_echo args = some not_an_echo

unfoldable pub contains_command_token : Text → Text → Bool
contains_command_token normalized token = in_list token (fields normalized)
