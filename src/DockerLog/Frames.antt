-- ===== src/DockerLog/Frames.antt =====
-- The frames of a container's log: `streamDockerLogLines` of internal/agentcore/docker/log_decode.go of a
-- container without a terminal. The context is not cancelled.
pub mod RoundTrip
pub mod Total
pub mod Streams
use labtether_linux.Base.{
  ℕ, zero, suc, ◌+◌, ◌-◌, ◌*◌, min, Bool, not, ◌||◌, Option, none, some, List, [], ◌∷◌, ◌++◌,
  if◌then◌else◌, ltb, ◌==◌, length, take, drop,
}
use labtether_linux.Base.Result.{Result, ok, err, ◌>>=◌}
use labtether_linux.DockerLog.{
  Stream, stdout, stderr, LineBuffer, LogError, truncated_header, invalid_header, truncated_payload,
  unread_daemon_error, truncated_daemon_error, daemon, out_of_rounds, send_failed, trim_return,
  emit,
}

-- What is read: the bytes up to its end, and whether it ends by an error.
pub record Reader : Type 0 where
  pub bytes : List ℕ
  pub broken : Bool

pub record Pending : Type 0 where
  pub line : List ℕ
  pub sequence : ℕ

-- The pending lines of both streams, the count of lines begun, and what was sent.
pub record LogState : Type 0 where
  pub out_line : Pending
  pub err_line : Pending
  pub next_sequence : ℕ
  pub sent : List (Stream × List ℕ)

abbrev pub pending_of : Stream → LogState → Pending
pending_of stdout st = st.out_line
pending_of stderr st = st.err_line

abbrev pub view : Stream → LogState → LineBuffer
view stream st = record {
  pending = (pending_of stream st).line;
  sequence = (pending_of stream st).sequence;
  next_sequence = st.next_sequence;
  sent = st.sent;
}

abbrev pub put_back : Stream → LineBuffer → LogState → LogState
put_back stdout b st = record st {
  out_line = record { line = b.pending; sequence = b.sequence };
  next_sequence = b.next_sequence;
  sent = b.sent;
}
put_back stderr b st = record st {
  err_line = record { line = b.pending; sequence = b.sequence };
  next_sequence = b.next_sequence;
  sent = b.sent;
}

abbrev pub Send : Type 0
Send = Stream → List ℕ → Bool

-- `emit` on a stream.
unfoldable pub emit_stream : Send → Stream → List ℕ → LogState → Result LogError LogState
emit_stream send stream bytes st =
    emit (stream, send) bytes (view stream st) >>= λ b. ok (put_back stream b st)

pub record Header : Type 0 where
  pub kind : ℕ
  pub reserved : Bool
  pub size : ℕ

-- The eight bytes of a header and what follows them.
unfoldable pub split_header : List ℕ → Option (Header × List ℕ)
split_header (k ∷ a ∷ b ∷ c ∷ d ∷ e ∷ f ∷ g ∷ rest) = some (
  record {
    kind = k;
    reserved = not (a == 0) || not (b == 0) || not (c == 0);
    size = d * 16777216 + e * 65536 + f * 256 + g;
  },
  rest,
)
split_header _ = none

abbrev pub buffer_size : ℕ
buffer_size = 16 * 1024

-- The payload of a frame, in buffers, with rounds left; a round takes a byte at least.
unfoldable pub payload_loop :
    Send → Stream → ℕ → ℕ → List ℕ → LogState → Result LogError (LogState × List ℕ)
payload_loop send stream zero size bytes st =
    if size == 0 then ok (st, bytes) else err out_of_rounds
payload_loop send stream (suc n) size bytes st =
    if size == 0
    then ok (st, bytes)
    else if ltb (length bytes) (min size buffer_size)
    then err truncated_payload
    else emit_stream send stream (take (min size buffer_size) bytes) st
      >>= payload_loop send stream n (size - min size buffer_size)
          (drop (min size buffer_size) bytes)

-- The frame by which the daemon reports an error, of which it shows `size` bytes.
abbrev pub daemon_error : Bool → ℕ → List ℕ → LogError
daemon_error broken size bytes =
    if ltb (length bytes) size
    then if broken then unread_daemon_error else truncated_daemon_error
    else daemon (take size bytes)

abbrev pub stream_of : ℕ → Stream
stream_of kind = if kind == 2 then stderr else stdout

unfoldable pub read_frame :
    Send → Bool → Header → List ℕ → LogState → Result LogError (LogState × List ℕ)
read_frame send broken h bytes st =
    if ltb 3 h.kind || h.reserved
    then err invalid_header
    else if h.kind == 3
    then err (daemon_error broken (min h.size 4096) bytes)
    else payload_loop send (stream_of h.kind) h.size h.size bytes st

-- The loop over the frames, with rounds left; a frame takes eight bytes at least.
unfoldable pub read_frames : Send → Bool → ℕ → List ℕ → LogState → Result LogError LogState
read_frames send broken zero bytes st = err out_of_rounds
read_frames send broken (suc n) [] st = if broken then err truncated_header else ok st
read_frames send broken (suc n) (c ∷ cs) st = elim (split_header (c ∷ cs)) [
  | none ↦ err truncated_header
  | some p ↦ read_frame send broken p.0 p.1 st >>= λ q. read_frames send broken n q.1 q.0
]

-- A line that has no line end at the end of the log.
unfoldable pub flush_line : Send → Stream → LogState → Result LogError LogState
flush_line send stream st =
    let line = (pending_of stream st).line in
    if length line == 0
    then ok st
    else if send stream (trim_return line)
    then ok (record st { sent = st.sent ++ ((stream, trim_return line) ∷ []) })
    else err send_failed

-- The lines left at the end, in the order in which they began.
unfoldable pub flush_lines : Send → LogState → Result LogError LogState
flush_lines send st =
    if ltb st.err_line.sequence st.out_line.sequence
    then flush_line send stderr st >>= flush_line send stdout
    else flush_line send stdout st >>= flush_line send stderr

abbrev pub empty_log : LogState
empty_log = record {
  out_line = record { line = []; sequence = 0 };
  err_line = record { line = []; sequence = 0 };
  next_sequence = 0;
  sent = [];
}

-- The frames of a container without a terminal.
unfoldable pub stream_frames : Send → Reader → Result LogError LogState
stream_frames send r =
    read_frames send r.broken (suc (length r.bytes)) r.bytes empty_log >>= flush_lines send
