-- ===== src/DockerLog.antt =====
-- The lines of a container's log: `emit` of `streamDockerLogLines` in
-- internal/agentcore/docker/log_decode.go, on one of the two streams.
pub mod Chunks
pub mod Lines
pub mod Frames
pub mod Terminal
pub mod Log
mod Tests
use labtether_linux.Base.{
  ℕ, zero, suc, ◌+◌, ◌*◌, Bool, Option, none, some, List, [], ◌∷◌, ◌++◌, if◌then◌else◌, ltb, ◌==◌,
  length,
}
use labtether_linux.Base.Result.{Result, ok, err, ◌>>=◌}

abbrev pub max_docker_log_line_bytes : ℕ
max_docker_log_line_bytes = 64 * 1024

pub data Stream : Type 0 where
  stdout stderr : Stream

-- The pending line of a stream and when it began, the count of lines begun, and what was sent.
pub record LineBuffer : Type 0 where
  pub pending : List ℕ
  pub sequence : ℕ
  pub next_sequence : ℕ
  pub sent : List (Stream × List ℕ)

-- Where a stream's lines go: what is sent, and whether it succeeds.
abbrev pub Sink : Type 0
Sink = Stream × (Stream → List ℕ → Bool)

-- The errors; `out_of_rounds` is none of the code's.
pub data LogError : Type 0 where
  line_too_long send_failed : LogError
  truncated_header invalid_header truncated_payload : LogError
  unread_daemon_error truncated_daemon_error : LogError
  daemon : List ℕ → LogError
  token_too_long unread_terminal : LogError
  out_of_rounds : LogError

-- The bytes before the first line end, and those behind it, if there is one.
pub cut_line : List ℕ → List ℕ × Option (List ℕ)
cut_line [] = ([], none)
cut_line (c ∷ cs) =
    let (line, rest) = cut_line cs in if c == b'\n' then ([], some cs) else (c ∷ line, rest)

-- strings.TrimSuffix(…, "\r")
pub trim_return : List ℕ → List ℕ
trim_return [] = []
trim_return (c ∷ []) = if c == 13 then [] else c ∷ []
trim_return (c ∷ d ∷ cs) = c ∷ trim_return (d ∷ cs)

-- The bytes go to the pending line, which they begin if it is empty.
pub add_pending : List ℕ → LineBuffer → Result LogError LineBuffer
add_pending piece b =
    if ltb max_docker_log_line_bytes (length b.pending + length piece)
    then err line_too_long
    else ok (
        if length b.pending == 0
        then record b {
          pending = b.pending ++ piece;
          sequence = b.next_sequence + 1;
          next_sequence = b.next_sequence + 1;
        }
        else record b { pending = b.pending ++ piece })

-- A complete line goes out under the name of its stream.
pub send_line : Sink → LineBuffer → Result LogError LineBuffer
send_line send b =
    if send.1 send.0 (trim_return b.pending)
    then ok (record b { pending = []; sent = b.sent ++ ((send.0, trim_return b.pending) ∷ []) })
    else err send_failed

-- What follows a piece: at a line end the line goes out, and `next` goes on behind it.
pub after_piece :
    Sink
    → (List ℕ → LineBuffer → Result LogError LineBuffer)
    → Option (List ℕ)
    → LineBuffer
    → Result LogError LineBuffer
after_piece send next none b = ok b
after_piece send next (some more) b = send_line send b >>= next more

-- `emit`, with rounds left; a round takes a byte at least, so that as many as there are bytes are enough.
pub emit_loop : Sink → ℕ → List ℕ → LineBuffer → Result LogError LineBuffer
emit_loop send zero bytes b = ok b
emit_loop send (suc n) [] b = ok b
emit_loop send (suc n) (c ∷ cs) b =
    add_pending (cut_line (c ∷ cs)).0 b
    >>= after_piece send (emit_loop send n) (cut_line (c ∷ cs)).1

pub emit : Sink → List ℕ → LineBuffer → Result LogError LineBuffer
emit send bytes b = emit_loop send (length bytes) bytes b

-- The calls of `emit` for the buffers of a stream's frames.
pub emit_all : Sink → List (List ℕ) → LineBuffer → Result LogError LineBuffer
emit_all send [] b = ok b
emit_all send (chunk ∷ chunks) b = emit send chunk b >>= emit_all send chunks
