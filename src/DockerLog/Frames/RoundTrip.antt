-- ===== src/DockerLog/Frames/RoundTrip.antt =====
-- What is read of frames is what their payloads say: internal/agentcore/docker/log_decode.go.
use labtether_linux.Base.{
  ℕ, zero, suc, ◌+◌, ◌-◌, ◌*◌, ◌/◌, ◌%◌, ◌^◌, ◌≤◌, ◌<◌, ◌≡◌, refl, sym, ap, ap₂, ◌∙◌, min, Bool,
  false, List, [], ◌∷◌, ◌++◌, length, take, drop, length-append, All, arith,
}
use labtether_linux.Base.Result.{Result, ok, ◌>>=◌}
use labtether_linux.DockerLog.{Stream, stdout, stderr, LineBuffer, LogError, emit, emit_loop}
use labtether_linux.DockerLog.Chunks.{emit-append, bind_assoc, bind_cong}
use labtether_linux.DockerLog.Frames.{
  LogState, Send, view, put_back, emit_stream, split_header, buffer_size, payload_loop, stream_of,
  read_frame, read_frames, flush_lines, empty_log, stream_frames,
}

view-put_back :
    (stream : Stream) (b : LineBuffer) (st : LogState) → view stream (put_back stream b st) ≡ b
view-put_back stdout b st = refl
view-put_back stderr b st = refl

put_back-put_back :
    (stream : Stream) (a b : LineBuffer) (st : LogState)
    → put_back stream b (put_back stream a st) ≡ put_back stream b st
put_back-put_back stdout a b st = refl
put_back-put_back stderr a b st = refl

emit_stream-append :
    (send : Send) (stream : Stream) (xs ys : List ℕ) (st : LogState)
    → emit_stream send stream (xs ++ ys) st
      ≡ (emit_stream send stream xs st >>= emit_stream send stream ys)
unfolding emit_stream
emit_stream-append send stream xs ys st =
    ap (λ r. r >>= λ b. ok (put_back stream b st))
      (emit-append (stream, send) xs ys (view stream st))
    ∙ bind_assoc (emit (stream, send) xs (view stream st)) _ _
    ∙ bind_cong (emit (stream, send) xs (view stream st)) _ _ (λ a.
      ap (λ v. emit (stream, send) ys v >>= λ b. ok (put_back stream b st))
        (sym (view-put_back stream a st))
      ∙ bind_cong (emit (stream, send) ys (view stream (put_back stream a st))) _ _
          (λ b. ap ok (sym (put_back-put_back stream a b st))))
    ∙ sym (bind_assoc (emit (stream, send) xs (view stream st)) _ _)

take-exact : (xs ys : List ℕ) → take (length xs) (xs ++ ys) ≡ xs
take-exact [] ys = refl
take-exact (x ∷ xs) ys = ap (λ l. x ∷ l) (take-exact xs ys)

drop-exact : (xs ys : List ℕ) → drop (length xs) (xs ++ ys) ≡ ys
drop-exact [] ys = refl
drop-exact (x ∷ xs) ys = drop-exact xs ys

emit_stream_nil :
    (send : Send) (stream : Stream) (st : LogState) → emit_stream send stream [] st ≡ ok st
unfolding emit_stream emit emit_loop
emit_stream_nil send stdout st = refl
emit_stream_nil send stderr st = refl

take-drop : (m : ℕ) (xs : List ℕ) → take m xs ++ drop m xs ≡ xs
take-drop zero xs = refl
take-drop (suc m) [] = refl
take-drop (suc m) (x ∷ xs) = ap (λ l. x ∷ l) (take-drop m xs)

take-append : (m : ℕ) (xs ys : List ℕ) → m ≤ length xs → take m (xs ++ ys) ≡ take m xs
take-append zero xs ys h = refl
take-append (suc m) [] ys h = absurd (omega (arith, h))
take-append (suc m) (x ∷ xs) ys h = ap (λ l. x ∷ l) (take-append m xs ys (omega (arith, h)))

drop-append : (m : ℕ) (xs ys : List ℕ) → m ≤ length xs → drop m (xs ++ ys) ≡ drop m xs ++ ys
drop-append zero xs ys h = refl
drop-append (suc m) [] ys h = absurd (omega (arith, h))
drop-append (suc m) (x ∷ xs) ys h = drop-append m xs ys (omega (arith, h))

length-drop : (m : ℕ) (xs : List ℕ) → length (drop m xs) ≡ length xs - m
length-drop zero xs = omega arith
length-drop (suc m) [] = omega arith
length-drop (suc m) (x ∷ xs) = omega (arith, length-drop m xs)

-- A round of the loop over a payload that is there.
payload_loop_round :
    (send : Send) (stream : Stream) (n size : ℕ) (bytes : List ℕ) (st : LogState)
    → 0 < size
    → size ≤ length bytes
    → payload_loop send stream (suc n) size bytes st ≡ (
        emit_stream send stream (take (min size buffer_size) bytes) st
        >>= payload_loop send stream n
            (size - min size buffer_size)
            (drop (min size buffer_size) bytes))
unfolding payload_loop
payload_loop_round send stream n size bytes st pos h = ground arith

-- The buffers of a payload that is there make no difference.
payload_loop-append :
    (send : Send) (stream : Stream) (n : ℕ) (pay rest : List ℕ) (st : LogState)
    → length pay ≤ n
    → payload_loop send stream n (length pay) (pay ++ rest) st
      ≡ (emit_stream send stream pay st >>= λ s. ok (s, rest))
unfolding payload_loop
payload_loop-append send stream zero [] rest st h =
    ap (λ r. r >>= λ s. ok (s, rest)) (sym (emit_stream_nil send stream st))
payload_loop-append send stream (suc n) [] rest st h =
    ap (λ r. r >>= λ s. ok (s, rest)) (sym (emit_stream_nil send stream st))
payload_loop-append send stream zero (c ∷ cs) rest st h = absurd (omega (arith, h))
payload_loop-append send stream (suc n) (c ∷ cs) rest st h =
    payload_loop_round send stream n (length pay) (pay ++ rest) st (omega arith)
      (omega (arith, length-append pay rest))
    ∙ ap₂ (λ l r. emit_stream send stream l st >>= payload_loop send stream n (length pay - m) r)
        (take-append m pay rest (omega arith)) (drop-append m pay rest (omega arith))
    ∙ bind_cong (emit_stream send stream (take m pay) st) _ _ (λ s.
      ap (λ k. payload_loop send stream n k (drop m pay ++ rest) s) (sym (length-drop m pay))
      ∙ payload_loop-append send stream n (drop m pay) rest s (omega (arith, h, length-drop m pay)))
    ∙ sym (bind_assoc (emit_stream send stream (take m pay) st) _ _)
    ∙ ap (λ r. r >>= λ s. ok (s, rest))
        (sym (emit_stream-append send stream (take m pay) (drop m pay) st)
          ∙ ap (λ l. emit_stream send stream l st) (take-drop m pay))
  where
    pay : List ℕ
    pay = c ∷ cs

    m : ℕ
    m = min (length pay) buffer_size

-- A frame of Docker: what it is of, and its payload.
pub record Frame : Type 0 where
  pub kind : ℕ
  pub payload : List ℕ

-- Standard input, output or error, and a size of four bytes.
pub record IsFrame (f : Frame) : Type 0 where
  pub kind_lt : f.kind < 3
  pub size_lt : length f.payload < 2 ^ 32

abbrev pub encode_frame : Frame → List ℕ
encode_frame f =
    let n = length f.payload in
    f.kind ∷ 0 ∷ 0 ∷ 0 ∷ n / 16777216 % 256 ∷ n / 65536 % 256 ∷ n / 256 % 256 ∷ n % 256 ∷ f.payload

abbrev pub encode_frames : List Frame → List ℕ
encode_frames [] = []
encode_frames (f ∷ fs) = encode_frame f ++ encode_frames fs

-- The payloads go to their streams.
abbrev pub emit_frames : Send → List Frame → LogState → Result LogError LogState
emit_frames send [] st = ok st
emit_frames send (f ∷ fs) st =
    emit_stream send (stream_of f.kind) f.payload st >>= emit_frames send fs

size_digits :
    (n : ℕ)
    → n < 2 ^ 32
    → n / 16777216 % 256 * 16777216 + n / 65536 % 256 * 65536 + n / 256 % 256 * 256 + n % 256 ≡ n
size_digits n h = omega (arith, h)

read_frame-append :
    (send : Send) (broken : Bool) (f : Frame) (rest : List ℕ) (st : LogState)
    → IsFrame f
    → read_frame send broken
        (record { kind = f.kind; reserved = false; size = length f.payload })
        (f.payload ++ rest)
        st
      ≡ (emit_stream send (stream_of f.kind) f.payload st >>= λ s. ok (s, rest))
unfolding read_frame
read_frame-append send broken f rest st h = ground (
  arith,
  h.kind_lt,
  payload_loop-append send (stream_of f.kind) (length f.payload) f.payload rest st,
)

read_frames-encode_frames :
    (send : Send) (fs : List Frame) (n : ℕ) (st : LogState)
    → All IsFrame fs
    → length (encode_frames fs) < n
    → read_frames send false n (encode_frames fs) st ≡ emit_frames send fs st
unfolding read_frames split_header
read_frames-encode_frames send fs zero st a h = absurd (omega (arith, h))
read_frames-encode_frames send [] (suc n) st a h = refl
read_frames-encode_frames send (f ∷ fs) (suc n) st a h =
    ap
      (λ k.
        read_frame send false (record { kind = f.kind; reserved = false; size = k })
          (f.payload ++ encode_frames fs) st
        >>= λ q. read_frames send false n q.1 q.0)
      (size_digits (length f.payload) a.0.size_lt)
    ∙ ap (λ r. r >>= λ q. read_frames send false n q.1 q.0)
        (read_frame-append send false f (encode_frames fs) st a.0)
    ∙ bind_assoc (emit_stream send (stream_of f.kind) f.payload st) _ _
    ∙ bind_cong (emit_stream send (stream_of f.kind) f.payload st) _ _ (λ s.
      read_frames-encode_frames send fs n s a.1
        (omega (arith, h, length-append f.payload (encode_frames fs))))

-- Frames are read as their payloads, in their order, and then the lines that have no line end.
pub stream_frames-encode_frames :
    (send : Send) (fs : List Frame)
    → All IsFrame fs
    → stream_frames send (record { bytes = encode_frames fs; broken = false })
      ≡ (emit_frames send fs empty_log >>= flush_lines send)
unfolding stream_frames
stream_frames-encode_frames send fs a =
    ap (λ r. r >>= flush_lines send)
      (read_frames-encode_frames send fs (suc (length (encode_frames fs))) empty_log a
        (omega arith))
