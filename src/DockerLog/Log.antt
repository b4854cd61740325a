-- ===== src/DockerLog/Log.antt =====
-- Both branches of `streamDockerLogLines` of internal/agentcore/docker/log_decode.go, and what decides between them.
use labtether_linux.Base.{
  ℕ, ◌≡◌, ◌≢◌, refl, Bool, true, false, Option, none, some, List, [], if◌then◌else◌, All,
}
use labtether_linux.Base.Result.{Result, ok, err, ◌>>=◌}
use labtether_linux.DockerLog.{Stream, LogError, out_of_rounds}
use labtether_linux.DockerLog.Lines.{split, all_lines, lines_fit, of_stream}
use labtether_linux.DockerLog.Frames.{Send, Reader, stream_frames}
use labtether_linux.DockerLog.Frames.RoundTrip.{Frame, IsFrame, encode_frames}
use labtether_linux.DockerLog.Frames.Total.{Anything, Sound-bind, Sound-error, stream_frames-Sound}
use labtether_linux.DockerLog.Frames.Streams.{bytes_of, stream_frames-ReadsLines}
use labtether_linux.DockerLog.Terminal.{
  Sent, stream_terminal, stream_terminal-Sound, stream_terminal-all_lines, tagged,
}

-- `streamDockerLogLines`: what it sent.
unfoldable pub stream_docker_log_lines : Send → Bool → Reader → Result LogError Sent
stream_docker_log_lines send tty r =
    if tty then stream_terminal send r else stream_frames send r >>= λ st. ok st.sent

-- What is sent succeeds, and the lines of each stream are those of the bytes of its own frames.
pub record SendsLines (fs : List Frame) (r : Result LogError Sent) : Type 0 where
  pub sent : Sent
  pub is_ok : r ≡ ok sent
  pub each : (s : Stream) → of_stream s sent ≡ all_lines (split (bytes_of s fs) ([], []))

-- A log that comes as frames, of less than 4 GiB each and none of them an error of the daemon, is read to its
-- end when sending always succeeds and no line is longer than 64 KiB, and the lines that are sent of each
-- stream, in their order, are those of the bytes of its own frames, however the frames cut the lines and
-- whatever frames of the other stream are between them.
pub stream_docker_log_lines-SendsLines :
    (send : Send) (fs : List Frame)
    → ((t : Stream) (l : List ℕ) → send t l ≡ true)
    → All IsFrame fs
    → ((s : Stream) → lines_fit (bytes_of s fs) 0 ≡ true)
    → SendsLines fs
        (stream_docker_log_lines send false (record { bytes = encode_frames fs; broken = false }))
unfolding stream_docker_log_lines
stream_docker_log_lines-SendsLines send fs accepts are fits =
    let r = stream_frames-ReadsLines send fs accepts are fits in
    record { sent = r.after.sent; is_ok = rw r.is_ok refl; each = r.each }

-- The log of a terminal is read to its end when sending always succeeds and no line is longer than 64 KiB, and
-- what is sent, all of it as standard output, are its lines in their order, also the last one when it has no line
-- end.
pub stream_docker_log_lines-tagged :
    (send : Send) (bytes : List ℕ)
    → ((t : Stream) (l : List ℕ) → send t l ≡ true)
    → lines_fit bytes 0 ≡ true
    → stream_docker_log_lines send true (record { bytes = bytes; broken = false })
      ≡ ok (tagged (all_lines (split bytes ([], []))))
unfolding stream_docker_log_lines
stream_docker_log_lines-tagged send bytes accepts fits =
    stream_terminal-all_lines send bytes accepts fits

-- Reading a log ends on all bytes, whether they are frames, lines or neither, and however the sending ends: the
-- loops over frames, payloads and the scanner's lines never run out of rounds.
pub stream_docker_log_lines_ends :
    (send : Send) (tty : Bool) (r : Reader) → stream_docker_log_lines send tty r ≢ err out_of_rounds
unfolding stream_docker_log_lines
stream_docker_log_lines_ends send true r =
    Sound-error Anything (stream_terminal send r) (stream_terminal-Sound send r)
stream_docker_log_lines_ends send false r =
    Sound-error Anything (stream_frames send r >>= λ st. ok st.sent)
      (Sound-bind Anything (stream_frames send r) _ (stream_frames-Sound send r) (λ st u. tt))

pub data InspectError : Type 0 where
  not_answered not_decoded no_tty : InspectError

-- `containerLogTTY` of the daemon's answer: whether the request succeeds, whether its JSON decodes, and whether it
-- has a configuration that says if there is a terminal.
abbrev pub container_log_tty : Option (Option (Option (Option Bool))) → Result InspectError Bool
container_log_tty none = err not_answered
container_log_tty (some none) = err not_decoded
container_log_tty (some (some none)) = err no_tty
container_log_tty (some (some (some none))) = err no_tty
container_log_tty (some (some (some (some tty)))) = ok tty
