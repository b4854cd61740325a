-- ===== src/DockerLog/Frames/Streams.antt =====
-- The two streams of a log do not mix: internal/agentcore/docker/log_decode.go.
use labtether_linux.Base.{
  ℕ, ◌≡◌, refl, sym, ap, subst, ◌∙◌, true, false, List, [], ◌∷◌, ◌++◌, if◌then◌else◌, ltb, ◌==◌,
  length, All, arith, Bool-cases, inl, inr,
}
use labtether_linux.Base.Result.{Result, ok, ◌>>=◌}
use labtether_linux.DockerLog.{Stream, stdout, stderr, LineBuffer, LogError, trim_return}
use labtether_linux.DockerLog.Lines.{
  Lines, all_lines, split, split-append, lines_fit, lines_fit-append, is_stream, of_stream,
  is_stream_refl, of_stream-append_self, of_stream-append_other,
}
use labtether_linux.DockerLog.Lines.Sent.{emit-Emitted}
use labtether_linux.DockerLog.Frames.{
  LogState, Send, pending_of, view, put_back, emit_stream, stream_of, flush_line, flush_lines,
  empty_log, stream_frames,
}
use labtether_linux.DockerLog.Frames.RoundTrip.{
  Frame, IsFrame, encode_frames, emit_frames, stream_frames-encode_frames,
}

-- The lines of a stream so far.
abbrev lines_of : Stream → LogState → Lines
lines_of s st = (of_stream s st.sent, (pending_of s st).line)

-- The bytes of a stream in a list of frames.
abbrev pub bytes_of : Stream → List Frame → List ℕ
bytes_of s [] = []
bytes_of s (f ∷ fs) =
    if is_stream s (stream_of f.kind) then f.payload ++ bytes_of s fs else bytes_of s fs

record Read (fs : List Frame) (st : LogState) (r : Result LogError LogState) : Type 0 where
  after : LogState
  is_ok : r ≡ ok after
  each : (s : Stream) → lines_of s after ≡ split (bytes_of s fs) (lines_of s st)

lines_of-put_back_self :
    (s : Stream) (b : LineBuffer) (st : LogState)
    → lines_of s (put_back s b st) ≡ (of_stream s b.sent, b.pending)
lines_of-put_back_self stdout b st = refl
lines_of-put_back_self stderr b st = refl

lines_of-put_back_other :
    (s t : Stream) (b : LineBuffer) (st : LogState)
    → is_stream s t ≡ false
    → lines_of s (put_back t b st) ≡ (of_stream s b.sent, (pending_of s st).line)
lines_of-put_back_other stdout stdout b st h = ground (arith, h)
lines_of-put_back_other stdout stderr b st h = refl
lines_of-put_back_other stderr stdout b st h = refl
lines_of-put_back_other stderr stderr b st h = ground (arith, h)

lines_of_sent :
    (s : Stream) (st : LogState) (sent : List (Stream × List ℕ))
    → lines_of s (record st { sent = sent }) ≡ (of_stream s sent, (pending_of s st).line)
lines_of_sent stdout st sent = refl
lines_of_sent stderr st sent = refl

lines_of-empty_log : (s : Stream) → lines_of s empty_log ≡ ([], [])
unfolding of_stream
lines_of-empty_log stdout = refl
lines_of-empty_log stderr = refl

is_stream_same : (s t : Stream) → is_stream s t ≡ true → s ≡ t
is_stream_same stdout stdout h = refl
is_stream_same stdout stderr h = ground (arith, h)
is_stream_same stderr stdout h = ground (arith, h)
is_stream_same stderr stderr h = refl

bytes_of_own :
    (f : Frame) (fs : List Frame)
    → bytes_of (stream_of f.kind) (f ∷ fs) ≡ f.payload ++ bytes_of (stream_of f.kind) fs
bytes_of_own f fs = rw (is_stream_refl (stream_of f.kind)) refl

bytes_of_other :
    (s : Stream) (f : Frame) (fs : List Frame)
    → is_stream s (stream_of f.kind) ≡ false
    → bytes_of s (f ∷ fs) ≡ bytes_of s fs
bytes_of_other s f fs n = rw n refl

module _ (send : Send) (accepts : (t : Stream) (l : List ℕ) → send t l ≡ true) where
  -- A payload that fits is read on its stream, and the other stream is as it was.
  record StreamRead (t : Stream) (bytes : List ℕ) (st : LogState) : Type 0 where
    after : LogState
    is_ok : emit_stream send t bytes st ≡ ok after
    own : lines_of t after ≡ split bytes (lines_of t st)
    other : (s : Stream) → is_stream s t ≡ false → lines_of s after ≡ lines_of s st

  emit_stream-StreamRead :
      (t : Stream) (bytes : List ℕ) (st : LogState)
      → lines_fit bytes (length (pending_of t st).line) ≡ true
      → StreamRead t bytes st
  unfolding emit_stream
  emit_stream-StreamRead t bytes st fits =
      let e = emit-Emitted t send accepts bytes (view t st) fits in
      record {
        after = put_back t e.after st;
        is_ok = rw e.is_ok refl;
        own = lines_of-put_back_self t e.after st ∙ e.own;
        other = λ s d.
            lines_of-put_back_other s t e.after st d
            ∙ ap (λ l. (l, (pending_of s st).line)) (e.other s d);
      }

  emit_frames-Read :
      (fs : List Frame) (st : LogState)
      → ((s : Stream) → lines_fit (bytes_of s fs) (length (pending_of s st).line) ≡ true)
      → Read fs st (emit_frames send fs st)
  emit_frames-Read [] st fits = record { after = st; is_ok = refl; each = λ s. refl }
  emit_frames-Read (f ∷ fs) st fits =
      let t = stream_of f.kind in
      let parts = lines_fit-append f.payload (bytes_of t fs) (lines_of t st) (
        ap (λ l. lines_fit l (length (pending_of t st).line)) (sym (bytes_of_own f fs)) ∙ fits t) in
      let r = emit_stream-StreamRead t f.payload st parts.0 in
      let q = emit_frames-Read fs r.after (λ s. elim (Bool-cases (is_stream s t)) [
        | inl y ↦
            ap (λ u. lines_fit (bytes_of u fs) (length (pending_of u r.after).line))
              (is_stream_same s t y)
            ∙ ap (λ (p : Lines). lines_fit (bytes_of t fs) (length p.1)) r.own
            ∙ parts.1
        | inr n ↦
            ap (λ (p : Lines). lines_fit (bytes_of s fs) (length p.1)) (r.other s n)
            ∙ ap (λ l. lines_fit l (length (pending_of s st).line)) (sym (bytes_of_other s f fs n))
            ∙ fits s
      ]) in
      record {
        after = q.after;
        is_ok = rw r.is_ok q.is_ok;
        each = λ s. elim (Bool-cases (is_stream s t)) [
          | inl y ↦
              subst (λ u. lines_of u q.after ≡ split (bytes_of u (f ∷ fs)) (lines_of u st))
                (sym (is_stream_same s t y))
                (q.each t
                  ∙ ap (split (bytes_of t fs)) r.own
                  ∙ sym (split-append f.payload (bytes_of t fs) (lines_of t st))
                  ∙ ap (λ l. split l (lines_of t st)) (sym (bytes_of_own f fs)))
          | inr n ↦
              q.each s
              ∙ ap (split (bytes_of s fs)) (r.other s n)
              ∙ ap (λ l. split l (lines_of s st)) (sym (bytes_of_other s f fs n))
        ];
      }

  -- The line left of a stream goes out, if there is one.
  record Flushed (t : Stream) (st : LogState) : Type 0 where
    after : LogState
    is_ok : flush_line send t st ≡ ok after
    own : of_stream t after.sent ≡ all_lines (lines_of t st)
    other : (s : Stream) → is_stream s t ≡ false → lines_of s after ≡ lines_of s st

  flush_line-Flushed : (t : Stream) (st : LogState) → Flushed t st
  unfolding flush_line
  flush_line-Flushed t st = elim (Bool-cases (length (pending_of t st).line == 0)) [
    | inl y ↦ record { after = st; is_ok = rw y refl; own = rw y refl; other = λ s d. refl }
    | inr n ↦ record {
      after = record st { sent = st.sent ++ ((t, trim_return (pending_of t st).line) ∷ []) };
      is_ok = rw (n, accepts t (trim_return (pending_of t st).line)) refl;
      own = rw n (of_stream-append_self t st.sent (trim_return (pending_of t st).line));
      other = λ s d.
          lines_of_sent s st (st.sent ++ ((t, trim_return (pending_of t st).line) ∷ []))
          ∙ ap (λ l. (l, (pending_of s st).line))
              (of_stream-append_other s t st.sent (trim_return (pending_of t st).line) d);
    }
  ]

  record AllFlushed (st : LogState) (r : Result LogError LogState) : Type 0 where
    after : LogState
    is_ok : r ≡ ok after
    each : (s : Stream) → of_stream s after.sent ≡ all_lines (lines_of s st)

  both_flushed :
      (t u : Stream) (st : LogState)
      → is_stream u t ≡ false
      → ((s : Stream) → is_stream s u ≡ false → s ≡ t)
      → AllFlushed st (flush_line send t st >>= flush_line send u)
  both_flushed t u st ut only =
      let a = flush_line-Flushed t st in
      let b = flush_line-Flushed u a.after in
      record {
        after = b.after;
        is_ok = rw a.is_ok b.is_ok;
        each = λ s. elim (Bool-cases (is_stream s u)) [
          | inl y ↦
              subst (λ w. of_stream w b.after.sent ≡ all_lines (lines_of w st))
                (sym (is_stream_same s u y)) (b.own ∙ ap all_lines (a.other u ut))
          | inr n ↦
              ap (λ (p : Lines). p.0) (b.other s n)
              ∙ subst (λ w. of_stream w a.after.sent ≡ all_lines (lines_of w st)) (sym (only s n))
                  a.own
        ];
      }

  flush_lines-AllFlushed : (st : LogState) → AllFlushed st (flush_lines send st)
  unfolding flush_lines
  flush_lines-AllFlushed st = elim (Bool-cases (ltb st.err_line.sequence st.out_line.sequence)) [
    | inl y ↦ rw y (both_flushed stderr stdout st refl only_err)
    | inr n ↦ rw n (both_flushed stdout stderr st refl only_out)
  ]
    where
      only_err : (s : Stream) → is_stream s stdout ≡ false → s ≡ stderr
      only_err stdout h = ground (arith, h)
      only_err stderr h = refl

      only_out : (s : Stream) → is_stream s stderr ≡ false → s ≡ stdout
      only_out stdout h = refl
      only_out stderr h = ground (arith, h)

-- Reading frames succeeds, and the lines sent of each stream are those of its own bytes.
pub record ReadsLines (fs : List Frame) (r : Result LogError LogState) : Type 0 where
  pub after : LogState
  pub is_ok : r ≡ ok after
  pub each : (s : Stream) → of_stream s after.sent ≡ all_lines (split (bytes_of s fs) ([], []))

-- Frames are read as the lines of their streams.
pub stream_frames-ReadsLines :
    (send : Send) (fs : List Frame)
    → ((t : Stream) (l : List ℕ) → send t l ≡ true)
    → All IsFrame fs
    → ((s : Stream) → lines_fit (bytes_of s fs) 0 ≡ true)
    → ReadsLines fs (stream_frames send (record { bytes = encode_frames fs; broken = false }))
stream_frames-ReadsLines send fs accepts are fits =
    let r = emit_frames-Read send accepts fs empty_log (λ s.
      subst (λ k. lines_fit (bytes_of s fs) k ≡ true)
        (sym (ap (λ (p : Lines). length p.1) (lines_of-empty_log s))) (fits s)) in
    let f = flush_lines-AllFlushed send accepts r.after in
    record {
      after = f.after;
      is_ok = stream_frames-encode_frames send fs are ∙ rw r.is_ok f.is_ok;
      each = λ s.
          f.each s ∙ ap all_lines (r.each s ∙ ap (split (bytes_of s fs)) (lines_of-empty_log s));
    }
