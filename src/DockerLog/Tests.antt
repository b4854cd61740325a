-- ===== src/DockerLog/Tests.antt =====
-- Runs of the line decoder of internal/agentcore/docker/log_decode.go.
use labtether_linux.Base.{ℕ, ◌≡◌, ◌≢◌, refl, true, false, All, arith, List, [], ◌∷◌}
use labtether_linux.Base.Result.{ok, err}
use labtether_linux.Base.Text.{codes}
use labtether_linux.DockerLog.{
  LineBuffer, Sink, Stream, stdout, stderr, out_of_rounds, cut_line, add_pending, trim_return,
  send_line, after_piece, emit_loop, emit, emit_all,
}
use labtether_linux.DockerLog.Chunks.{concat}
use labtether_linux.DockerLog.Lines.{lines_fit}
use labtether_linux.DockerLog.Frames.{
  Send, stream_frames, read_frames, read_frame, split_header, payload_loop, emit_stream,
  flush_lines, flush_line,
}
use labtether_linux.DockerLog.Frames.RoundTrip.{Frame, IsFrame, encode_frames}
use labtether_linux.DockerLog.Frames.Streams.{bytes_of}
use labtether_linux.DockerLog.Log.{
  stream_docker_log_lines, SendsLines, stream_docker_log_lines-SendsLines,
  stream_docker_log_lines-tagged, stream_docker_log_lines_ends,
}

abbrev nothing_yet : LineBuffer
nothing_yet = record { pending = []; sequence = 0; next_sequence = 0; sent = [] }

abbrev out : Sink
out = (stdout, λ stream line. true)

-- Two lines and a part of a third, cut within the first and between return and line end.
abbrev three_chunks : List (List ℕ)
three_chunks = codes "he" ∷ codes "llo\r" ∷ codes "\nworld\nrest" ∷ []

runs_chunks :
    emit_all out three_chunks nothing_yet
    ≡ ok (record {
      pending = codes "rest";
      sequence = 3;
      next_sequence = 3;
      sent = (stdout, codes "hello") ∷ (stdout, codes "world") ∷ [];
    })
unfolding emit_all emit emit_loop after_piece send_line trim_return add_pending cut_line
runs_chunks = refl

runs_at_once : emit out (concat three_chunks) nothing_yet ≡ emit_all out three_chunks nothing_yet
unfolding emit_all emit emit_loop after_piece send_line trim_return add_pending cut_line
runs_at_once = refl

-- Two lines of each stream, of which one is cut by the end of a frame and one has no line end.
abbrev frames : List Frame
frames =
    record { kind = 1; payload = codes "one\ntw" }
    ∷ record { kind = 2; payload = codes "bad\r\nworse" }
    ∷ record { kind = 0; payload = codes "o\n" }
    ∷ []

abbrev always : Send
always stream line = true

frames-IsFrame : All IsFrame frames
frames-IsFrame = (
  record { kind_lt = omega arith; size_lt = omega arith },
  (
    record { kind_lt = omega arith; size_lt = omega arith },
    (record { kind_lt = omega arith; size_lt = omega arith }, tt),
  ),
)

frames_fit : (s : Stream) → lines_fit (bytes_of s frames) 0 ≡ true
unfolding lines_fit
frames_fit stdout = refl
frames_fit stderr = refl

stream_docker_log_lines-SendsLines_example :
    SendsLines frames (
      stream_docker_log_lines always false
        (record { bytes = encode_frames frames; broken = false }))
stream_docker_log_lines-SendsLines_example =
    stream_docker_log_lines-SendsLines always frames (λ t l. refl) frames-IsFrame frames_fit

runs_frames :
    stream_docker_log_lines always false (record { bytes = encode_frames frames; broken = false })
    ≡ ok (
        (stdout, codes "one")
        ∷ (stderr, codes "bad")
        ∷ (stdout, codes "two")
        ∷ (stderr, codes "worse")
        ∷ [])
unfolding stream_docker_log_lines stream_frames read_frames read_frame split_header payload_loop
    emit_stream flush_lines flush_line emit emit_loop after_piece send_line trim_return add_pending
    cut_line
runs_frames = refl

stream_docker_log_lines-tagged_example :
    stream_docker_log_lines always true (record { bytes = codes "one\r\n\ntwo"; broken = false })
    ≡ ok ((stdout, codes "one") ∷ (stdout, []) ∷ (stdout, codes "two") ∷ [])
unfolding lines_fit trim_return
stream_docker_log_lines-tagged_example =
    stream_docker_log_lines-tagged always (codes "one\r\n\ntwo") (λ t l. refl) refl

stream_docker_log_lines_ends_example :
    stream_docker_log_lines always false (record { bytes = codes "no frames"; broken = false })
    ≢ err out_of_rounds
stream_docker_log_lines_ends_example =
    stream_docker_log_lines_ends always false (record { bytes = codes "no frames"; broken = false })
