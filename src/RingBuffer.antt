-- ===== src/RingBuffer.antt =====
-- The telemetry ring buffer of internal/agentcore/ring_buffer.go: `RingBuffer[T]` with its methods.
-- A critical section of a mutex is one step; what other goroutines do while `Flush` sends an item
-- outside the lock is an explicit list of operations. `zero_value` is Go's `var zero T`.
-- `head_version` is a uint64 and wraps; the indices are below a capacity that fits in memory.
pub mod Inv
pub mod Entries
pub mod Order
pub mod Flush
mod Tests
use labtether_linux.Base.{
  ℕ, zero, suc, ◌+◌, ◌-◌, ◌%◌, ◌^◌, Bool, ◌&&◌, List, [], ◌∷◌, ltb, ◌==◌, if◌then◌else◌, get_or,
  set, replicate,
}
use labtether_linux.Base.Int.{ℤ, pos, negsuc}

pub record RingBuffer {ℓ} (A : Type ℓ) : Type ℓ where
  pub buf : List A
  pub head : ℕ
  pub size : ℕ
  pub cap : ℕ
  pub head_version : ℕ

-- The capacity that a request for `capacity` entries gets.
pub capacity_for : ℤ → ℕ
capacity_for (pos zero) = 60
capacity_for (pos (suc n)) = suc n
capacity_for (negsuc n) = 60

-- `headVersion++` on a uint64.
abbrev pub next_version : ℕ → ℕ
next_version v = (v + 1) % 2 ^ 64

-- What `send` reported: no error, one that wraps errDiscardBufferedItem, or another.
pub data Sent : Type 0 where
  delivered discarded failed : Sent

pub data Outcome : Type 0 where
  finished send_error busy : Outcome

module _ {ℓ} {A : Type ℓ} (zero_value : A) where
  pub new : ℤ → RingBuffer A
  new capacity = record {
    buf = replicate (capacity_for capacity) zero_value;
    head = 0;
    size = 0;
    cap = capacity_for capacity;
    head_version = 0;
  }

  pub push : A → RingBuffer A → RingBuffer A
  push item rb =
      let written = set rb.buf ((rb.head + rb.size) % rb.cap) item in
      if ltb rb.size rb.cap then record rb { buf = written; size = rb.size + 1 } else record rb {
        buf = written;
        head = (rb.head + 1) % rb.cap;
        head_version = next_version rb.head_version;
      }

  -- The loop of `Drain` from round `i`, with `n` rounds left: what it reads, and the cleared slots.
  pub drain_loop : ℕ → ℕ → List A → ℕ → ℕ → List A × List A
  drain_loop cap head buf i zero = ([], buf)
  drain_loop cap head buf i (suc n) =
      let idx = (head + i) % cap in
      let (out, rest) = drain_loop cap head (set buf idx zero_value) (suc i) n in
      (get_or buf idx zero_value ∷ out, rest)

  pub drain : RingBuffer A → List A × RingBuffer A
  drain rb =
      let (out, cleared) = drain_loop rb.cap rb.head rb.buf 0 rb.size in
      if rb.size == 0 then ([], rb) else (
        out,
        record rb {
          buf = cleared;
          head = 0;
          size = 0;
          head_version = next_version rb.head_version;
        },
      )

  -- The critical section after a send: the head goes only if it is still the item that was sent.
  pub commit : ℕ → RingBuffer A → RingBuffer A
  commit version rb =
      if ltb 0 rb.size && (rb.head_version == version)
      then record rb {
        buf = set rb.buf rb.head zero_value;
        head = (rb.head + 1) % rb.cap;
        size = rb.size - 1;
        head_version = next_version rb.head_version;
      }
      else rb

  pub data Op : Type ℓ where
    pushes : A → Op
    drains : Op

  pub step : RingBuffer A → Op → RingBuffer A
  step rb (pushes x) = push x rb
  step rb drains = (drain rb).1

  pub steps : RingBuffer A → List Op → RingBuffer A
  steps rb [] = rb
  steps rb (o ∷ os) = steps (step rb o) os

  -- One round's environment: what others do before the flusher locks, the answer of `send`, and
  -- what others do while it sends.
  pub record Round : Type ℓ where
    pub before : List Op
    pub answer : A → Sent
    pub during : List Op

  -- `Flush` returns at a send error that is no discard, and goes on to `next` otherwise.
  pub after_send {κ} : {S : Type κ} → Sent → A → S → Outcome × List A × S → Outcome × List A × S
  after_send failed sample here next = (send_error, sample ∷ [], here)
  after_send delivered sample here next = next
  after_send discarded sample here next = next

  -- One round of the loop of `Flush`; `rest` is the rounds after it. The list is what was sent.
  pub flush_round :
      Round
      → (RingBuffer A → Outcome × List A × RingBuffer A)
      → RingBuffer A
      → Outcome × List A × RingBuffer A
  flush_round r rest rb =
      let rb₁ = steps rb r.before in
      let sample = get_or rb₁.buf rb₁.head zero_value in
      let rb₂ = steps rb₁ r.during in
      let (o, sent, rb₃) = rest (commit rb₁.head_version rb₂) in
      if rb₁.size == 0
      then (finished, [], rb₁)
      else after_send (r.answer sample) sample rb₂ (o, sample ∷ sent, rb₃)

  -- The loop of `Flush`, with `n` rounds left; round `i` meets `env i`.
  pub flush_loop : (ℕ → Round) → ℕ → ℕ → RingBuffer A → Outcome × List A × RingBuffer A
  flush_loop env i zero rb = (finished, [], rb)
  flush_loop env i (suc n) rb = flush_round (env i) (flush_loop env (suc i) n) rb

  -- `free` says whether `flushMu.TryLock` got the lock.
  pub flush : Bool → (ℕ → Round) → RingBuffer A → Outcome × List A × RingBuffer A
  flush free env rb = if free then flush_loop env 0 rb.cap rb else (busy, [], rb)

pub len {ℓ} : {A : Type ℓ} → RingBuffer A → ℕ
len rb = rb.size
