-- ===== src/DockerLog/Lines.antt =====
-- What the lines of a stream are, byte by byte, for internal/agentcore/docker/log_decode.go.
pub mod Sent
use labtether_linux.Base.{
  ℕ, suc, ◌+◌, ◌≤◌, ◌≡◌, refl, sym, ap, subst, ◌∙◌, Bool, true, false, not, ◌&&◌, Option, none,
  some, List, [], ◌∷◌, ◌++◌, if◌then◌else◌, ltb, ◌==◌, length, length-append, append-nil,
  append_assoc, arith, Bool-cases, inl, inr,
}
use labtether_linux.DockerLog.{
  Stream, stdout, stderr, max_docker_log_line_bytes, cut_line, trim_return,
}

-- The complete lines and the line begun.
abbrev pub Lines : Type 0
Lines = List (List ℕ) × List ℕ

abbrev pub next_byte : ℕ → Lines → Lines
next_byte c p = if c == b'\n' then (p.0 ++ (trim_return p.1 ∷ []), []) else (p.0, p.1 ++ (c ∷ []))

abbrev pub split : List ℕ → Lines → Lines
split [] p = p
split (c ∷ cs) p = split cs (next_byte c p)

-- All lines, the last of which may have no line end.
abbrev pub all_lines : Lines → List (List ℕ)
all_lines p = if length p.1 == 0 then p.0 else p.0 ++ (trim_return p.1 ∷ [])

-- No line is longer than 64 KiB, when `n` bytes of the first have been read.
unfoldable pub lines_fit : List ℕ → ℕ → Bool
lines_fit [] n = not (ltb max_docker_log_line_bytes n)
lines_fit (c ∷ cs) n =
    let fresh = lines_fit cs 0 in
    let longer = lines_fit cs (suc n) in
    if c == b'\n' then not (ltb max_docker_log_line_bytes n) && fresh else longer

abbrev pub is_stream : Stream → Stream → Bool
is_stream stdout stdout = true
is_stream stderr stderr = true
is_stream _ _ = false

-- The lines of a stream among what was sent.
unfoldable pub of_stream : Stream → List (Stream × List ℕ) → List (List ℕ)
of_stream s [] = []
of_stream s ((t, l) ∷ sent) =
    let rest = of_stream s sent in if is_stream s t then l ∷ rest else rest

pub is_stream_refl : (s : Stream) → is_stream s s ≡ true
is_stream_refl stdout = refl
is_stream_refl stderr = refl

pub of_stream-append_self :
    (s : Stream) (sent : List (Stream × List ℕ)) (l : List ℕ)
    → of_stream s (sent ++ ((s, l) ∷ [])) ≡ of_stream s sent ++ (l ∷ [])
unfolding of_stream
of_stream-append_self s [] l = ground (arith, is_stream_refl s)
of_stream-append_self s ((t, x) ∷ sent) l = ground (arith, of_stream-append_self s sent l)

pub of_stream-append_other :
    (s t : Stream) (sent : List (Stream × List ℕ)) (l : List ℕ)
    → is_stream s t ≡ false
    → of_stream s (sent ++ ((t, l) ∷ [])) ≡ of_stream s sent
unfolding of_stream
of_stream-append_other s t [] l h = ground (arith, h)
of_stream-append_other s t ((u, x) ∷ sent) l h = ground (arith, of_stream-append_other s t sent l h)

pub split-append : (xs ys : List ℕ) (p : Lines) → split (xs ++ ys) p ≡ split ys (split xs p)
split-append [] ys p = refl
split-append (c ∷ cs) ys p = split-append cs ys (next_byte c p)

lines_fit_start : (ys : List ℕ) (n : ℕ) → lines_fit ys n ≡ true → n ≤ max_docker_log_line_bytes
unfolding lines_fit
lines_fit_start [] n h = ground (arith, h)
lines_fit_start (c ∷ cs) n h = ground (arith, h, lines_fit_start cs (suc n))

pub next_byte_end :
    (c : ℕ) (p : Lines) → (c == 10) ≡ true → next_byte c p ≡ (p.0 ++ (trim_return p.1 ∷ []), [])
next_byte_end c p y = rw y refl

pub next_byte_more :
    (c : ℕ) (p : Lines) → (c == 10) ≡ false → next_byte c p ≡ (p.0, p.1 ++ (c ∷ []))
next_byte_more c p n = rw n refl

length-snoc : (xs : List ℕ) (c : ℕ) → length (xs ++ (c ∷ [])) ≡ suc (length xs)
length-snoc xs c = omega (arith, length-append xs (c ∷ []))

-- A run of bytes that fits, in two parts.
pub lines_fit-append :
    (xs ys : List ℕ) (p : Lines)
    → lines_fit (xs ++ ys) (length p.1) ≡ true
    → (lines_fit xs (length p.1) ≡ true) × (lines_fit ys (length (split xs p).1) ≡ true)
unfolding lines_fit
lines_fit-append [] ys p h = (ground (arith, lines_fit_start ys (length p.1) h), h)
lines_fit-append (c ∷ cs) ys p h = elim (Bool-cases (c == 10)) [
  | inl y ↦
      let q = lines_fit-append cs ys (p.0 ++ (trim_return p.1 ∷ []), []) (ground (arith, h, y)) in
      (
        ground (arith, h, y, q.0),
        subst (λ r. lines_fit ys (length (split cs r).1) ≡ true) (sym (next_byte_end c p y)) q.1,
      )
  | inr n ↦
      let q =
        lines_fit-append cs ys (p.0, p.1 ++ (c ∷ [])) (ground (arith, h, n, length-snoc p.1 c)) in
      (
        ground (arith, n, q.0, length-snoc p.1 c),
        subst (λ r. lines_fit ys (length (split cs r).1) ≡ true) (sym (next_byte_more c p n)) q.1,
      )
]

-- The rest behind a piece.
abbrev pub resume : List ℕ × Option (List ℕ) → Lines → Lines
resume (piece, none) p = (p.0, p.1 ++ piece)
resume (piece, some rest) p = split rest (p.0 ++ (trim_return (p.1 ++ piece) ∷ []), [])

longer :
    (c : ℕ) (p : Lines) (q : List ℕ × Option (List ℕ))
    → resume q (p.0, p.1 ++ (c ∷ [])) ≡ resume (c ∷ q.0, q.1) p
longer c p (piece, none) = ap (λ l. (p.0, l)) (append_assoc p.1 (c ∷ []) piece)
longer c p (piece, some rest) =
    ap (λ l. split rest (p.0 ++ (trim_return l ∷ []), [])) (append_assoc p.1 (c ∷ []) piece)

pub split-cut_line : (xs : List ℕ) (p : Lines) → split xs p ≡ resume (cut_line xs) p
unfolding cut_line
split-cut_line [] p = ap (λ l. (p.0, l)) (sym (append-nil p.1))
split-cut_line (c ∷ cs) p = elim (Bool-cases (c == 10)) [
  | inl y ↦ rw y (ap (λ l. split cs (p.0 ++ (trim_return l ∷ []), [])) (sym (append-nil p.1)))
  | inr n ↦ rw n (split-cut_line cs (p.0, p.1 ++ (c ∷ [])) ∙ longer c p (cut_line cs))
]

abbrev pub fits_through : List ℕ × Option (List ℕ) → ℕ → Bool
fits_through (piece, none) n = not (ltb max_docker_log_line_bytes (n + length piece))
fits_through (piece, some rest) n =
    not (ltb max_docker_log_line_bytes (n + length piece)) && lines_fit rest 0

fits_longer :
    (c n : ℕ) (q : List ℕ × Option (List ℕ))
    → fits_through q (suc n) ≡ fits_through (c ∷ q.0, q.1) n
fits_longer c n (piece, none) = ap (λ k. not (ltb max_docker_log_line_bytes k)) (omega arith)
fits_longer c n (piece, some rest) =
    ap (λ k. not (ltb max_docker_log_line_bytes k) && lines_fit rest 0) (omega arith)

pub lines_fit-cut_line : (xs : List ℕ) (n : ℕ) → lines_fit xs n ≡ fits_through (cut_line xs) n
unfolding lines_fit cut_line
lines_fit-cut_line [] n = ap (λ k. not (ltb max_docker_log_line_bytes k)) (omega arith)
lines_fit-cut_line (c ∷ cs) n = elim (Bool-cases (c == 10)) [
  | inl y ↦ rw y (ap (λ k. not (ltb max_docker_log_line_bytes k) && lines_fit cs 0) (omega arith))
  | inr m ↦ rw m (lines_fit-cut_line cs (suc n) ∙ fits_longer c n (cut_line cs))
]
