-- ===== src/DockerLog/Terminal.antt =====
-- The log of a container with a terminal: `streamDockerLogLines` of internal/agentcore/docker/log_decode.go. Its
-- scanner is bufio.Scanner, which gives the lines without their ends, the last one also without a line end, and
-- fails at a line that its buffer cannot hold.
use labtether_linux.Base.{
  ℕ, zero, suc, ◌+◌, ◌≤◌, ◌<◌, ◌≡◌, refl, sym, ap, ◌∙◌, Bool, true, false, Option, none, some, List,
  [], ◌∷◌, ◌++◌, map, append-nil, append_assoc, if◌then◌else◌, ltb, ◌==◌, length, arith, Bool-cases,
  inl, inr,
}
use labtether_linux.Base.Result.{Result, ok, err, ◌>>=◌}
use labtether_linux.DockerLog.{
  Stream, stdout, LogError, line_too_long, send_failed, token_too_long, unread_terminal,
  out_of_rounds, max_docker_log_line_bytes, cut_line, trim_return,
}
use labtether_linux.DockerLog.Chunks.{length-cut_line, cut_line_whole}
use labtether_linux.DockerLog.Lines.{
  Lines, split, split-cut_line, all_lines, lines_fit, lines_fit-cut_line, fits_through, resume,
  next_byte_end, next_byte_more,
}
use labtether_linux.DockerLog.Frames.{Send, Reader}
use labtether_linux.DockerLog.Frames.Total.{Sound, Anything, Sound-bind, Sound-if}

abbrev pub Sent : Type 0
Sent = List (Stream × List ℕ)

-- A line of the scanner.
unfoldable pub send_text : Send → List ℕ → Sent → Result LogError Sent
send_text send line sent =
    if ltb max_docker_log_line_bytes (length line)
    then err line_too_long
    else if send stdout line
    then ok (sent ++ ((stdout, line) ∷ []))
    else err send_failed

-- The buffer holds two bytes more than a line, of which a line end or another byte is one.
abbrev pub scan :
    Send
    → (List ℕ → Sent → Result LogError Sent)
    → List ℕ × Option (List ℕ)
    → Sent
    → Result LogError Sent
scan send next (piece, some rest) sent =
    if ltb (max_docker_log_line_bytes + 1) (length piece)
    then err token_too_long
    else send_text send (trim_return piece) sent >>= next rest
scan send next (piece, none) sent =
    if ltb (max_docker_log_line_bytes + 1) (length piece)
    then err token_too_long
    else send_text send (trim_return piece) sent >>= next []

-- The loop over the scanner's lines, with rounds left; a round takes a byte at least.
unfoldable pub scan_loop : Send → Bool → ℕ → List ℕ → Sent → Result LogError Sent
scan_loop send broken zero bytes sent = err out_of_rounds
scan_loop send broken (suc n) [] sent = if broken then err unread_terminal else ok sent
scan_loop send broken (suc n) (c ∷ cs) sent =
    scan send (scan_loop send broken n) (cut_line (c ∷ cs)) sent

unfoldable pub stream_terminal : Send → Reader → Result LogError Sent
stream_terminal send r = scan_loop send r.broken (suc (length r.bytes)) r.bytes []

abbrev pub tagged : List (List ℕ) → Sent
tagged ls = map (λ l. (stdout, l)) ls

split_done :
    (bytes : List ℕ) (done : List (List ℕ)) (line : List ℕ)
    → split bytes (done, line) ≡ (done ++ (split bytes ([], line)).0, (split bytes ([], line)).1)
split_done [] done line = ap (λ d. (d, line)) (sym (append-nil done))
split_done (c ∷ cs) done line = elim (Bool-cases (c == 10)) [
  | inl y ↦
      ap (split cs) (next_byte_end c (done, line) y)
      ∙ split_done cs (done ++ (trim_return line ∷ [])) []
      ∙ ap (λ d. (d, (split cs ([], [])).1))
          (append_assoc done (trim_return line ∷ []) (split cs ([], [])).0)
      ∙ ap (λ (p : Lines). (done ++ p.0, p.1)) (sym (split_done cs (trim_return line ∷ []) []))
      ∙ ap (λ (r : Lines). (done ++ (split cs r).0, (split cs r).1))
          (sym (next_byte_end c ([], line) y))
  | inr n ↦
      ap (split cs) (next_byte_more c (done, line) n)
      ∙ split_done cs done (line ++ (c ∷ []))
      ∙ ap (λ (r : Lines). (done ++ (split cs r).0, (split cs r).1))
          (sym (next_byte_more c ([], line) n))
]

all_lines_cons : (l : List ℕ) (p : Lines) → all_lines ((l ∷ []) ++ p.0, p.1) ≡ l ∷ all_lines p
all_lines_cons l p = elim (Bool-cases (length p.1 == 0)) [ inl y ↦ rw y refl | inr n ↦ rw n refl ]

all_lines_last : (l : List ℕ) → 0 < length l → all_lines ([], l) ≡ trim_return l ∷ []
all_lines_last l h = ground (arith, h)

length-trim_return : (l : List ℕ) → length (trim_return l) ≤ length l
unfolding trim_return
length-trim_return [] = omega arith
length-trim_return (c ∷ []) = ground arith
length-trim_return (c ∷ d ∷ cs) = omega (arith, length-trim_return (d ∷ cs))

module _ (send : Send) (accepts : (t : Stream) (l : List ℕ) → send t l ≡ true) where
  send_text-ok :
      (line : List ℕ) (sent : Sent)
      → length line ≤ max_docker_log_line_bytes
      → send_text send (trim_return line) sent ≡ ok (sent ++ ((stdout, trim_return line) ∷ []))
  unfolding send_text
  send_text-ok line sent h =
      ground (arith, h, accepts stdout (trim_return line), length-trim_return line)

  scan_loop-all_lines :
      (n : ℕ) (bytes : List ℕ) (sent : Sent)
      → length bytes < n
      → lines_fit bytes 0 ≡ true
      → scan_loop send false n bytes sent ≡ ok (sent ++ tagged (all_lines (split bytes ([], []))))
  unfolding scan_loop lines_fit
  scan_loop-all_lines zero bytes sent h fits = absurd (omega (arith, h))
  scan_loop-all_lines (suc n) [] sent h fits = ap ok (sym (append-nil sent))
  scan_loop-all_lines (suc n) (c ∷ cs) sent h fits =
      go (cut_line (c ∷ cs)) refl (sym (lines_fit-cut_line (c ∷ cs) 0) ∙ fits)
        (scan_loop-all_lines n)
    where
      go :
          (q : List ℕ × Option (List ℕ))
          → cut_line (c ∷ cs) ≡ q
          → fits_through q 0 ≡ true
          → ((rest : List ℕ) (sent : Sent)
              → length rest < n
              → lines_fit rest 0 ≡ true
              → scan_loop send false n rest sent
                ≡ ok (sent ++ tagged (all_lines (split rest ([], [])))))
          → scan send (scan_loop send false n) q sent
            ≡ ok (sent ++ tagged (all_lines (split (c ∷ cs) ([], []))))
      go (piece, some rest) e fit ih =
          let text = send_text-ok piece sent (ground (arith, fit)) in
          let shown : all_lines (split (c ∷ cs) ([], []))
              ≡ trim_return piece ∷ all_lines (split rest ([], [])) =
            ap all_lines (
              split-cut_line (c ∷ cs) ([], [])
              ∙ ap (λ q. resume q ([], [])) e
              ∙ split_done rest (trim_return piece ∷ []) [])
            ∙ all_lines_cons (trim_return piece) (split rest ([], [])) in
          ground (arith, fit, text)
          ∙ ih rest (sent ++ ((stdout, trim_return piece) ∷ []))
              (omega (arith, h, length-cut_line (c ∷ cs) rest (ap (λ q. q.1) e)))
              (ground (arith, fit))
          ∙ ap ok (
              append_assoc sent ((stdout, trim_return piece) ∷ [])
                (tagged (all_lines (split rest ([], [])))))
          ∙ ap (λ ls. ok (sent ++ tagged ls)) (sym shown)
      go (piece, none) e fit ih =
          let text = send_text-ok piece sent (ground (arith, fit)) in
          let whole : piece ≡ c ∷ cs =
            ap (λ q. q.0) (sym e) ∙ cut_line_whole (c ∷ cs) (ap (λ q. q.1) e) in
          let shown : all_lines (split (c ∷ cs) ([], [])) ≡ trim_return piece ∷ [] =
            ap all_lines (split-cut_line (c ∷ cs) ([], []) ∙ ap (λ q. resume q ([], [])) e)
            ∙ all_lines_last piece (omega (arith, ap length whole)) in
          ground (arith, fit, text)
          ∙ ih [] (sent ++ ((stdout, trim_return piece) ∷ [])) (omega (arith, h)) refl
          ∙ ap ok (append-nil (sent ++ ((stdout, trim_return piece) ∷ [])))
          ∙ ap (λ ls. ok (sent ++ tagged ls)) (sym shown)

-- The scanner's lines are those of the bytes.
pub stream_terminal-all_lines :
    (send : Send) (bytes : List ℕ)
    → ((t : Stream) (l : List ℕ) → send t l ≡ true)
    → lines_fit bytes 0 ≡ true
    → stream_terminal send (record { bytes = bytes; broken = false })
      ≡ ok (tagged (all_lines (split bytes ([], []))))
unfolding stream_terminal
stream_terminal-all_lines send bytes accepts fits =
    scan_loop-all_lines send accepts (suc (length bytes)) bytes [] (omega arith) fits

send_text-Sound :
    (send : Send) (line : List ℕ) (sent : Sent) → Sound Anything (send_text send line sent)
unfolding send_text
send_text-Sound send line sent =
    Sound-if Anything (ltb max_docker_log_line_bytes (length line)) _ _ (λ y q. cc)
      (λ n. Sound-if Anything (send stdout line) _ _ (λ y. tt) (λ m q. cc))

scan-Sound :
    (send : Send) (next : List ℕ → Sent → Result LogError Sent) (bytes : List ℕ) (sent : Sent)
    → ((rest : List ℕ) (sent' : Sent)
        → length rest < length bytes
        → Sound Anything (next rest sent'))
    → 0 < length bytes
    → Sound Anything (scan send next (cut_line bytes) sent)
scan-Sound send next bytes sent ih full = go (cut_line bytes) refl
  where
    go :
        (q : List ℕ × Option (List ℕ)) → cut_line bytes ≡ q → Sound Anything (scan send next q sent)
    go (piece, some rest) e =
        Sound-if Anything (ltb (max_docker_log_line_bytes + 1) (length piece)) _ _ (λ y q. cc)
          (λ n.
            Sound-bind Anything (send_text send (trim_return piece) sent) _
              (send_text-Sound send (trim_return piece) sent)
              (λ sent' u. ih rest sent' (length-cut_line bytes rest (ap (λ q. q.1) e))))
    go (piece, none) e =
        Sound-if Anything (ltb (max_docker_log_line_bytes + 1) (length piece)) _ _ (λ y q. cc)
          (λ n.
            Sound-bind Anything (send_text send (trim_return piece) sent) _
              (send_text-Sound send (trim_return piece) sent) (λ sent' u. ih [] sent' full))

scan_loop-Sound :
    (send : Send) (broken : Bool) (n : ℕ) (bytes : List ℕ) (sent : Sent)
    → length bytes < n
    → Sound Anything (scan_loop send broken n bytes sent)
unfolding scan_loop
scan_loop-Sound send broken zero bytes sent h = absurd (omega (arith, h))
scan_loop-Sound send broken (suc n) [] sent h = Sound-if Anything broken _ _ (λ y q. cc) (λ y. tt)
scan_loop-Sound send broken (suc n) (c ∷ cs) sent h =
    scan-Sound send (scan_loop send broken n) (c ∷ cs) sent
      (λ rest sent' l. scan_loop-Sound send broken n rest sent' (omega (arith, l, h))) (omega arith)

pub stream_terminal-Sound : (send : Send) (r : Reader) → Sound Anything (stream_terminal send r)
unfolding stream_terminal
stream_terminal-Sound send r =
    scan_loop-Sound send r.broken (suc (length r.bytes)) r.bytes [] (omega arith)
