-- ===== src/DockerLog/Frames/Total.antt =====
-- The loops over frames and payloads end: internal/agentcore/docker/log_decode.go.
use labtether_linux.Base.{
  ℕ, zero, suc, ◌+◌, ◌-◌, ◌≤◌, ◌<◌, ◌≡◌, ◌≢◌, refl, min, Bool, false, true, Option, none, some,
  List, [], ◌∷◌, ltb, ◌==◌, ◌||◌, if◌then◌else◌, length, take, drop, arith,
}
use labtether_linux.Base.Result.{Result, ok, err, ◌>>=◌}
use labtether_linux.DockerLog.{
  Stream, stdout, stderr, trim_return, LineBuffer, Sink, LogError, out_of_rounds, truncated_header,
  max_docker_log_line_bytes, add_pending, cut_line, send_line, after_piece, emit, emit_loop,
}
use labtether_linux.DockerLog.Frames.{
  Reader, LogState, Send, view, pending_of, daemon_error, empty_log, stream_of, emit_stream, Header,
  split_header, buffer_size, payload_loop, read_frame, read_frames, flush_line, flush_lines,
  stream_frames,
}

-- The result is one of the code's, and if there is one, it fits.
abbrev pub Sound : {A : Type 0} → (A → Type 0) → Result LogError A → Type 0
Sound P (ok a) = P a
Sound P (err e) = e ≢ out_of_rounds

pub Sound-bind :
    {A B : Type 0} {P : A → Type 0} (Q : B → Type 0) (r : Result LogError A)
    (f : A → Result LogError B)
    → Sound P r
    → ((a : A) → P a → Sound Q (f a))
    → Sound Q (r >>= f)
Sound-bind Q (ok a) f s h = h a s
Sound-bind Q (err e) f s h = s

pub Sound-if :
    {A : Type 0} (P : A → Type 0) (t : Bool) (x y : Result LogError A)
    → (t ≡ true → Sound P x)
    → (t ≡ false → Sound P y)
    → Sound P (if t then x else y)
Sound-if P true x y p q = p refl
Sound-if P false x y p q = q refl

abbrev pub Anything : {A : Type 0} → A → Type 0
Anything a = Unit

add_pending-Sound : (piece : List ℕ) (b : LineBuffer) → Sound Anything (add_pending piece b)
unfolding add_pending
add_pending-Sound piece b =
    Sound-if Anything (ltb max_docker_log_line_bytes (length b.pending + length piece)) _ _
      (λ y q. cc) (λ n. tt)

send_line-Sound : (sink : Sink) (b : LineBuffer) → Sound Anything (send_line sink b)
unfolding send_line
send_line-Sound sink b =
    Sound-if Anything (sink.1 sink.0 (trim_return b.pending)) _ _ (λ y. tt) (λ n q. cc)

after_piece-Sound :
    (sink : Sink) (next : List ℕ → LineBuffer → Result LogError LineBuffer) (o : Option (List ℕ))
    (b : LineBuffer)
    → ((more : List ℕ) (b' : LineBuffer) → Sound Anything (next more b'))
    → Sound Anything (after_piece sink next o b)
unfolding after_piece
after_piece-Sound sink next none b h = tt
after_piece-Sound sink next (some more) b h =
    Sound-bind Anything (send_line sink b) (next more) (send_line-Sound sink b) (λ b' u. h more b')

emit_loop-Sound :
    (sink : Sink) (n : ℕ) (bytes : List ℕ) (b : LineBuffer)
    → Sound Anything (emit_loop sink n bytes b)
unfolding emit_loop
emit_loop-Sound sink zero bytes b = tt
emit_loop-Sound sink (suc n) [] b = tt
emit_loop-Sound sink (suc n) (c ∷ cs) b =
    Sound-bind Anything (add_pending (cut_line (c ∷ cs)).0 b) _
      (add_pending-Sound (cut_line (c ∷ cs)).0 b)
      (λ b' u.
        after_piece-Sound sink (emit_loop sink n) (cut_line (c ∷ cs)).1 b' (emit_loop-Sound sink n))

emit_stream-Sound :
    (send : Send) (stream : Stream) (bytes : List ℕ) (st : LogState)
    → Sound Anything (emit_stream send stream bytes st)
unfolding emit_stream emit
emit_stream-Sound send stream bytes st =
    Sound-bind Anything (emit (stream, send) bytes (view stream st)) _
      (emit_loop-Sound (stream, send) (length bytes) bytes (view stream st)) (λ b u. tt)

-- What is left to be read is no more than there was.
abbrev Within : List ℕ → LogState × List ℕ → Type 0
Within bytes q = length q.1 ≤ length bytes

length-drop_le : (m : ℕ) (xs : List ℕ) → length (drop m xs) ≤ length xs
length-drop_le zero xs = omega arith
length-drop_le (suc m) [] = omega arith
length-drop_le (suc m) (x ∷ xs) = omega (arith, length-drop_le m xs)

Sound-weaken :
    {A : Type 0} (P Q : A → Type 0) (r : Result LogError A)
    → ((a : A) → P a → Q a)
    → Sound P r
    → Sound Q r
Sound-weaken P Q (ok a) h s = h a s
Sound-weaken P Q (err e) h s = s

payload_loop-Sound :
    (send : Send) (stream : Stream) (n size : ℕ) (bytes : List ℕ) (st : LogState)
    → size ≤ n
    → Sound (Within bytes) (payload_loop send stream n size bytes st)
unfolding payload_loop
payload_loop-Sound send stream zero size bytes st h =
    Sound-if (Within bytes) (size == 0) _ _ (λ y. omega arith) (λ n. ground (arith, n, h))
payload_loop-Sound send stream (suc n) size bytes st h =
    Sound-if (Within bytes) (size == 0) _ _ (λ y. omega arith)
      (λ more.
        Sound-if (Within bytes) (ltb (length bytes) (min size buffer_size)) _ _ (λ y q. cc)
          (λ y.
            Sound-bind (Within bytes) (emit_stream send stream (take m bytes) st) _
              (emit_stream-Sound send stream (take m bytes) st)
              (λ s u.
                Sound-weaken (Within (drop m bytes)) (Within bytes)
                  (payload_loop send stream n (size - m) (drop m bytes) s)
                  (λ q w. omega (arith, w, length-drop_le m bytes))
                  (payload_loop-Sound send stream n (size - m) (drop m bytes) s
                    (ground (arith, h, more))))))
  where
    m : ℕ
    m = min size buffer_size

daemon_error-Sound :
    (broken : Bool) (size : ℕ) (bytes : List ℕ) → daemon_error broken size bytes ≢ out_of_rounds
daemon_error-Sound broken size bytes h = ground (arith, h)

read_frame-Sound :
    (send : Send) (broken : Bool) (h : Header) (bytes : List ℕ) (st : LogState)
    → Sound (Within bytes) (read_frame send broken h bytes st)
unfolding read_frame
read_frame-Sound send broken h bytes st =
    Sound-if (Within bytes) (ltb 3 h.kind || h.reserved) _ _ (λ y q. cc)
      (λ n.
        Sound-if (Within bytes) (h.kind == 3) _ _
          (λ y. daemon_error-Sound broken (min h.size 4096) bytes)
          (λ y. payload_loop-Sound send (stream_of h.kind) h.size h.size bytes st (omega arith)))

abbrev Shorter : List ℕ → Option (Header × List ℕ) → Type 0
Shorter bytes none = Unit
Shorter bytes (some p) = length p.1 < length bytes

split_header-Shorter : (bytes : List ℕ) → Shorter bytes (split_header bytes)
unfolding split_header
split_header-Shorter (k ∷ a ∷ b ∷ c ∷ d ∷ e ∷ f ∷ g ∷ rest) = omega arith
split_header-Shorter _ = tt

read_frames-Sound :
    (send : Send) (broken : Bool) (n : ℕ) (bytes : List ℕ) (st : LogState)
    → length bytes < n
    → Sound Anything (read_frames send broken n bytes st)
unfolding read_frames
read_frames-Sound send broken zero bytes st h = absurd (omega (arith, h))
read_frames-Sound send broken (suc n) [] st h = Sound-if Anything broken _ _ (λ y q. cc) (λ y. tt)
read_frames-Sound send broken (suc n) (c ∷ cs) st h =
    go (split_header (c ∷ cs)) (split_header-Shorter (c ∷ cs)) (read_frames-Sound send broken n)
  where
    go :
        (o : Option (Header × List ℕ))
        → Shorter (c ∷ cs) o
        → ((bytes : List ℕ) (s : LogState)
            → length bytes < n
            → Sound Anything (read_frames send broken n bytes s))
        → Sound Anything (elim o as (λ _. Result LogError LogState) [
          | none ↦ err truncated_header
          | some p ↦ read_frame send broken p.0 p.1 st >>= λ q. read_frames send broken n q.1 q.0
        ])
    go none s ih = λ q. cc
    go (some p) s ih =
        Sound-bind Anything (read_frame send broken p.0 p.1 st) _
          (read_frame-Sound send broken p.0 p.1 st) (λ q w. ih q.1 q.0 (omega (arith, s, w, h)))

flush_line-Sound :
    (send : Send) (stream : Stream) (st : LogState) → Sound Anything (flush_line send stream st)
unfolding flush_line
flush_line-Sound send stream st =
    Sound-if Anything (length (pending_of stream st).line == 0) _ _ (λ y. tt)
      (λ n.
        Sound-if Anything (send stream (trim_return (pending_of stream st).line)) _ _ (λ y. tt)
          (λ y q. cc))

flush_lines-Sound : (send : Send) (st : LogState) → Sound Anything (flush_lines send st)
unfolding flush_lines
flush_lines-Sound send st =
    Sound-if Anything (ltb st.err_line.sequence st.out_line.sequence) _ _
      (λ y.
        Sound-bind Anything (flush_line send stderr st) _ (flush_line-Sound send stderr st)
          (λ s u. flush_line-Sound send stdout s))
      (λ y.
        Sound-bind Anything (flush_line send stdout st) _ (flush_line-Sound send stdout st)
          (λ s u. flush_line-Sound send stderr s))

pub Sound-error :
    {A : Type 0} (P : A → Type 0) (r : Result LogError A) → Sound P r → r ≢ err out_of_rounds
Sound-error P (ok a) s = λ h. cc
Sound-error P (err e) s = λ h. s (ground (arith, h))

pub stream_frames-Sound : (send : Send) (r : Reader) → Sound Anything (stream_frames send r)
unfolding stream_frames
stream_frames-Sound send r =
    Sound-bind Anything (read_frames send r.broken (suc (length r.bytes)) r.bytes empty_log) _
      (read_frames-Sound send r.broken (suc (length r.bytes)) r.bytes empty_log (omega arith))
      (λ s u. flush_lines-Sound send s)
