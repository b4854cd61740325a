-- ===== src/DockerLog/Lines/Sent.antt =====
-- `emit` of internal/agentcore/docker/log_decode.go sends the lines of its bytes.
use labtether_linux.Base.{
  ℕ, zero, suc, ◌+◌, ◌≤◌, ◌≡◌, refl, sym, ap, ◌∙◌, Bool, true, false, not, Option, none, some, List,
  [], ◌∷◌, ◌++◌, if◌then◌else◌, ltb, ◌==◌, length, arith, Bool-cases, inl, inr,
}
use labtether_linux.Base.Result.{Result, ok, ◌>>=◌}
use labtether_linux.DockerLog.{
  Stream, LineBuffer, LogError, max_docker_log_line_bytes, cut_line, trim_return, add_pending,
  send_line, after_piece, emit_loop, emit,
}
use labtether_linux.DockerLog.Chunks.{length-cut_line}
use labtether_linux.DockerLog.Lines.{
  split, lines_fit, is_stream, of_stream, of_stream-append_self, of_stream-append_other,
  split-cut_line, lines_fit-cut_line, resume, fits_through,
}

-- `emit` on a stream succeeds, the lines and the pending line of that stream are those of the bytes, and no
-- line of another stream is sent.
pub record Emitted (s : Stream) (bytes : List ℕ) (b : LineBuffer) (r : Result LogError LineBuffer)
    : Type 0 where
  pub after : LineBuffer
  pub is_ok : r ≡ ok after
  pub own : (of_stream s after.sent, after.pending) ≡ split bytes (of_stream s b.sent, b.pending)
  pub other : (t : Stream) → is_stream t s ≡ false → of_stream t after.sent ≡ of_stream t b.sent

abbrev with_piece : List ℕ → LineBuffer → LineBuffer
with_piece piece b =
    if length b.pending == 0
    then record b {
      pending = b.pending ++ piece;
      sequence = b.next_sequence + 1;
      next_sequence = b.next_sequence + 1;
    }
    else record b { pending = b.pending ++ piece }

abbrev contents : LineBuffer → List (Stream × List ℕ) × List ℕ
contents b = (b.sent, b.pending)

with_piece_lines :
    (piece : List ℕ) (b : LineBuffer)
    → contents (with_piece piece b) ≡ contents (record b { pending = b.pending ++ piece })
with_piece_lines piece b = elim (Bool-cases (length b.pending == 0)) [
  | inl y ↦ rw y refl
  | inr n ↦ rw n refl
]

add_pending-with_piece :
    (piece : List ℕ) (b : LineBuffer)
    → not (ltb max_docker_log_line_bytes (length b.pending + length piece)) ≡ true
    → add_pending piece b ≡ ok (with_piece piece b)
unfolding add_pending
add_pending-with_piece piece b h = ground (arith, h)

module _ (s : Stream) (send : Stream → List ℕ → Bool)
    (accepts : (t : Stream) (l : List ℕ) → send t l ≡ true) where
  -- A line goes out.
  abbrev line_sent : LineBuffer → LineBuffer
  line_sent b = record b { pending = []; sent = b.sent ++ ((s, trim_return b.pending) ∷ []) }

  send_line-line_sent : (b : LineBuffer) → send_line (s, send) b ≡ ok (line_sent b)
  unfolding send_line
  send_line-line_sent b = rw (accepts s (trim_return b.pending)) refl

  emit_loop-Emitted :
      (n : ℕ) (bytes : List ℕ) (b : LineBuffer)
      → length bytes ≤ n
      → lines_fit bytes (length b.pending) ≡ true
      → Emitted s bytes b (emit_loop (s, send) n bytes b)
  unfolding emit_loop after_piece
  emit_loop-Emitted zero [] b h fits = record {
    after = b;
    is_ok = refl;
    own = refl;
    other = λ t d. refl;
  }
  emit_loop-Emitted (suc n) [] b h fits = record {
    after = b;
    is_ok = refl;
    own = refl;
    other = λ t d. refl;
  }
  emit_loop-Emitted zero (c ∷ cs) b h fits = absurd (omega (arith, h))
  emit_loop-Emitted (suc n) (c ∷ cs) b h fits =
      go (cut_line (c ∷ cs)) refl (sym (lines_fit-cut_line (c ∷ cs) (length b.pending)) ∙ fits)
        (emit_loop-Emitted n)
    where
      go :
          (q : List ℕ × Option (List ℕ))
          → cut_line (c ∷ cs) ≡ q
          → fits_through q (length b.pending) ≡ true
          → ((rest : List ℕ) (b' : LineBuffer)
              → length rest ≤ n
              → lines_fit rest (length b'.pending) ≡ true
              → Emitted s rest b' (emit_loop (s, send) n rest b'))
          → Emitted s
              (c ∷ cs)
              b
              (add_pending q.0 b >>= after_piece (s, send) (emit_loop (s, send) n) q.1)
      go (piece, none) e fit ih = record {
        after = with_piece piece b;
        is_ok = rw (add_pending-with_piece piece b fit) refl;
        own =
            ap (λ p. (of_stream s p.0, p.1)) (with_piece_lines piece b)
            ∙ sym (
                split-cut_line (c ∷ cs) (of_stream s b.sent, b.pending)
                ∙ ap (λ q. resume q (of_stream s b.sent, b.pending)) e);
        other = λ t d. ap (λ p. of_stream t p.0) (with_piece_lines piece b);
      }
      go (piece, some rest) e fit ih =
          let b₁ = with_piece piece b in
          let r =
            ih rest (line_sent b₁)
              (omega (arith, h, length-cut_line (c ∷ cs) rest (ap (λ q. q.1) e)))
              (ground (arith, fit)) in
          record {
            after = r.after;
            is_ok =
                rw (add_pending-with_piece piece b (ground (arith, fit)), send_line-line_sent b₁)
                  r.is_ok;
            own =
                r.own
                ∙ ap (λ l. split rest (l, []))
                    (of_stream-append_self s b₁.sent (trim_return b₁.pending))
                ∙ ap (λ p. split rest (of_stream s p.0 ++ (trim_return p.1 ∷ []), []))
                    (with_piece_lines piece b)
                ∙ sym (
                    split-cut_line (c ∷ cs) (of_stream s b.sent, b.pending)
                    ∙ ap (λ q. resume q (of_stream s b.sent, b.pending)) e);
            other = λ t d.
                r.other t d
                ∙ of_stream-append_other t s b₁.sent (trim_return b₁.pending) d
                ∙ ap (λ p. of_stream t p.0) (with_piece_lines piece b);
          }

  pub emit-Emitted :
      (bytes : List ℕ) (b : LineBuffer)
      → lines_fit bytes (length b.pending) ≡ true
      → Emitted s bytes b (emit (s, send) bytes b)
  unfolding emit
  emit-Emitted bytes b fits = emit_loop-Emitted (length bytes) bytes b (omega arith) fits
