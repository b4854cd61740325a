-- ===== src/RingBuffer/Flush.antt =====
-- `RingBuffer.Flush` of internal/agentcore/ring_buffer.go against other goroutines.
use labtether_linux.Base.{
  ℕ, zero, suc, ◌+◌, ◌-◌, ◌≤◌, ◌<◌, ◌%◌, ◌^◌, ◌≡◌, ◌≢◌, refl, ap, sym, ◌∙◌, List, [], ◌∷◌, ◌++◌,
  arith, length, get_or, Bool, true, false, not, ltb, ◌==◌, if◌then◌else◌, drop, inl, inr,
  Bool-cases,
}
use mathlib.Core.List.{append-nil, append_assoc}
use labtether_linux.RingBuffer.{
  RingBuffer, Op, pushes, drains, Sent, delivered, discarded, failed, Outcome, finished, send_error,
  busy, Round, push, drain, commit, step, steps, flush, flush_loop, flush_round, after_send,
  next_version,
}
use labtether_linux.RingBuffer.Inv.{IsValid, commit-IsValid, step-IsValid, steps-IsValid}
use labtether_linux.RingBuffer.Entries.{entries, slot_cases}
use labtether_linux.RingBuffer.Order.{
  contents, length-contents, contents-push, queue_push, commit_current, commit_stale,
}

wrapped : (w n : ℕ) → w < 2 ^ 64 → n < 2 ^ 64 → n ≢ 0 → (w + n) % 2 ^ 64 ≢ w
wrapped w n h k ne = omega arith

module _ {ℓ} {A : Type ℓ} (zero_value : A) where
  -- Whether the operation moves the head: a push into a full buffer, a drain of one that holds items.
  abbrev pub moves : RingBuffer A → Op zero_value → Bool
  moves rb (pushes x) = not (ltb rb.size rb.cap)
  moves rb drains = not (rb.size == 0)

  -- How often a run of operations moves the head.
  unfoldable pub head_moves : RingBuffer A → List (Op zero_value) → ℕ
  head_moves rb [] = 0
  head_moves rb (o ∷ os) = (if moves rb o then 1 else 0) + head_moves (step zero_value rb o) os

  -- The items that a run of operations pushes, in order.
  pub pushed : List (Op zero_value) → List A
  pushed [] = []
  pushed (pushes x ∷ os) = x ∷ pushed os
  pushed (drains ∷ os) = pushed os

  version-step :
      (rb : RingBuffer A) (o : Op zero_value)
      → (step zero_value rb o).head_version
        ≡ (if moves rb o then next_version rb.head_version else rb.head_version)
  unfolding step push drain
  version-step rb (pushes x) = ground arith
  version-step rb drains = ground arith

  version-steps :
      (rb : RingBuffer A) (os : List (Op zero_value))
      → rb.head_version < 2 ^ 64
      → (steps zero_value rb os).head_version ≡ (rb.head_version + head_moves rb os) % 2 ^ 64
  unfolding steps head_moves
  version-steps rb [] h = omega arith
  version-steps rb (o ∷ os) h = elim (Bool-cases (moves rb o)) [
    | inl m ↦
        let e : (step zero_value rb o).head_version ≡ next_version rb.head_version =
          version-step rb o ∙ rw m in
        rw m (omega (arith, version-steps (step zero_value rb o) os (omega (arith, e)), e))
    | inr m ↦
        let e : (step zero_value rb o).head_version ≡ rb.head_version = version-step rb o ∙ rw m in
        rw m (omega (arith, version-steps (step zero_value rb o) os (omega (arith, e)), e))
  ]

  contents-step :
      (rb : RingBuffer A) (o : Op zero_value)
      → IsValid rb
      → moves rb o ≡ false
      → contents zero_value (step zero_value rb o) ≡ contents zero_value rb ++ pushed (o ∷ [])
  unfolding step pushed queue_push drain
  contents-step rb (pushes x) v h =
      contents-push zero_value x rb v ∙ rw (length-contents zero_value rb) (ground arith)
  contents-step rb drains v h =
      let e : (rb.size == 0) ≡ true = ground arith in rw (e, step, drain) (sym (append-nil _))

  pushed-cons :
      (o : Op zero_value) (os : List (Op zero_value))
      → pushed (o ∷ []) ++ pushed os ≡ pushed (o ∷ os)
  unfolding pushed
  pushed-cons (pushes x) os = refl
  pushed-cons drains os = refl

  still : (n : ℕ) → 0 + n ≡ 0 → n ≡ 0
  still n h = omega arith

  contents-steps :
      (rb : RingBuffer A) (os : List (Op zero_value))
      → IsValid rb
      → head_moves rb os ≡ 0
      → contents zero_value (steps zero_value rb os) ≡ contents zero_value rb ++ pushed os
  unfolding steps head_moves
  contents-steps rb [] v h = unfold pushed in sym (append-nil _)
  contents-steps rb (o ∷ os) v h = elim (Bool-cases (moves rb o)) [
    | inl m ↦ absurd (omega (arith, rw m at h))
    | inr m ↦
        contents-steps (step zero_value rb o) os (step-IsValid zero_value o rb v)
          (still (head_moves (step zero_value rb o) os) (rw m at h))
        ∙ ap (λ q. q ++ pushed os) (contents-step rb o v m)
        ∙ append_assoc (contents zero_value rb) (pushed (o ∷ [])) (pushed os)
        ∙ ap (λ q. contents zero_value rb ++ q) (pushed-cons o os)
  ]

  -- The critical section after a send, at the version that the section before it read: if what other
  -- goroutines did meanwhile left the head alone, exactly the item that was sent goes off the front
  -- of the queue and their pushes stay behind it; otherwise nothing is removed. Fewer than 2^64
  -- movements of the head happen during one send.
  pub commit_after_send :
      (rb : RingBuffer A) (os : List (Op zero_value))
      → IsValid rb
      → rb.head_version < 2 ^ 64
      → head_moves rb os < 2 ^ 64
      → contents zero_value (commit zero_value rb.head_version (steps zero_value rb os)) ≡ (
          if head_moves rb os == 0
          then drop 1 (contents zero_value rb ++ pushed os)
          else contents zero_value (steps zero_value rb os))
  commit_after_send rb os v h k = elim (Bool-cases (head_moves rb os == 0)) [
    | inl none_moved ↦
        let zero_moves : head_moves rb os ≡ 0 = ground arith in
        let same : rb.head_version ≡ (steps zero_value rb os).head_version =
          omega (arith, version-steps rb os h, zero_moves) in
        rw none_moved (
          ap (λ w. contents zero_value (commit zero_value w (steps zero_value rb os))) same
          ∙ commit_current zero_value (steps zero_value rb os) (steps-IsValid zero_value os rb v)
          ∙ ap (drop 1) (contents-steps rb os v zero_moves))
    | inr moved ↦
        let some_moves : head_moves rb os ≢ 0 = ground arith in
        rw moved (
          ap (contents zero_value) (
            commit_stale zero_value rb.head_version (steps zero_value rb os) (λ e.
              wrapped rb.head_version (head_moves rb os) h k some_moves
                (sym (version-steps rb os h) ∙ e))))
  ]

  size-commit :
      (rb : RingBuffer A) (n : ℕ)
      → rb.size ≤ suc n
      → (commit zero_value rb.head_version rb).size ≤ n
  unfolding commit
  size-commit rb n h = ground arith

  -- The queue's reading of a flush that nobody disturbs: send from the front until a send fails.
  unfoldable pub deliver : (A → Sent) → List A → Outcome × List A × List A
  deliver answer [] = (finished, [], [])
  deliver answer (x ∷ q) =
      let (o, sent, rest) = deliver answer q in
      elim (answer x) [
        | failed ↦ (send_error, x ∷ [], x ∷ q)
        | delivered ↦ (o, x ∷ sent, rest)
        | discarded ↦ (o, x ∷ sent, rest)
      ]

  -- The environment in which nobody else touches the buffer.
  abbrev pub quiet : (A → Sent) → ℕ → Round zero_value
  quiet answer i = record { before = []; answer = answer; during = [] }

  contents_cons :
      (rb : RingBuffer A) (n : ℕ)
      → IsValid rb
      → rb.size ≡ suc n
      → contents zero_value rb ≡ get_or rb.buf rb.head zero_value ∷ drop 1 (contents zero_value rb)
  contents_cons rb n v e =
      ap (entries zero_value rb.cap rb.buf rb.head 0) e
      ∙ ap (λ k. get_or rb.buf k zero_value ∷ entries zero_value rb.cap rb.buf rb.head 1 n) here
      ∙ ap
          (λ k.
            get_or rb.buf rb.head zero_value
            ∷ drop 1 (entries zero_value rb.cap rb.buf rb.head 0 k))
          (sym e)
    where
      here : (rb.head + 0) % rb.cap ≡ rb.head
      here = omega (arith, slot_cases rb.cap rb.head 0 v.head_in)

  contents_nil : (rb : RingBuffer A) → rb.size ≡ 0 → contents zero_value rb ≡ []
  contents_nil rb e = ap (entries zero_value rb.cap rb.buf rb.head 0) e

  -- The result of a flush with the queue in place of the buffer.
  abbrev seen : Outcome × List A × RingBuffer A → Outcome × List A × List A
  seen (o, sent, rb) = (o, sent, contents zero_value rb)

  after_send-seen :
      (answer : A → Sent) (rb : RingBuffer A) (next : Outcome × List A × RingBuffer A) (x : A)
      (q : List A)
      → contents zero_value rb ≡ x ∷ q
      → seen next ≡ deliver answer q
      → seen (after_send zero_value (answer x) x rb (next.0, x ∷ next.1, next.2))
        ≡ deliver answer (contents zero_value rb)
  unfolding after_send deliver
  after_send-seen answer rb next x q e h = rw e (ground (arith, e, h))

  flush_round-quiet :
      (answer : A → Sent) (i : ℕ) (rest : RingBuffer A → Outcome × List A × RingBuffer A)
      (rb : RingBuffer A)
      → IsValid rb
      → seen (rest (commit zero_value rb.head_version rb))
        ≡ deliver answer (contents zero_value (commit zero_value rb.head_version rb))
      → seen (flush_round zero_value (quiet answer i) rest rb)
        ≡ deliver answer (contents zero_value rb)
  unfolding flush_round steps
  flush_round-quiet answer i rest rb v h = elim (Bool-cases (rb.size == 0)) [
    | inl empty ↦
        rw (empty, flush_round) (rw (contents_nil rb (ground arith)) (unfold deliver in refl))
    | inr more ↦
        rw (more, flush_round)
          (after_send-seen answer rb (rest (commit zero_value rb.head_version rb))
            (get_or rb.buf rb.head zero_value) (drop 1 (contents zero_value rb))
            (contents_cons rb (rb.size - 1) v (ground arith))
            (h ∙ ap (deliver answer) (commit_current zero_value rb v)))
  ]

  flush_loop-quiet :
      (answer : A → Sent) (n i : ℕ) (rb : RingBuffer A)
      → IsValid rb
      → rb.size ≤ n
      → seen (flush_loop zero_value (quiet answer) i n rb) ≡ deliver answer (contents zero_value rb)
  unfolding flush_loop
  flush_loop-quiet answer zero i rb v h =
      rw (contents_nil rb (omega arith)) (unfold deliver in refl)
  flush_loop-quiet answer (suc n) i rb v h =
      flush_round-quiet answer i (flush_loop zero_value (quiet answer) (suc i) n) rb v (
        flush_loop-quiet answer n (suc i) (commit zero_value rb.head_version rb)
          (commit-IsValid zero_value rb.head_version rb v) (size-commit rb n h))

  -- A flush that nobody disturbs, on a valid buffer: it sends the queue's items oldest first, up to
  -- and including the first whose send fails, and returns that failure; the items before it, delivered
  -- or discarded, are gone, and that item and the ones behind it stay queued in order.
  pub flush-quiet :
      (answer : A → Sent) (rb : RingBuffer A)
      → IsValid rb
      → let (o, sent, rb') = flush zero_value true (quiet answer) rb in
        (o, sent, contents zero_value rb') ≡ deliver answer (contents zero_value rb)
  unfolding flush
  flush-quiet answer rb v = flush_loop-quiet answer rb.cap 0 rb v v.size_in

  flush_round-IsValid :
      (r : Round zero_value) (rest : RingBuffer A → Outcome × List A × RingBuffer A) (n : ℕ)
      (rb : RingBuffer A)
      → ((q : RingBuffer A) → IsValid q → IsValid (rest q).2 × (length (rest q).1 ≤ n))
      → IsValid rb
      → IsValid (flush_round zero_value r rest rb).2
        × (length (flush_round zero_value r rest rb).1 ≤ suc n)
  unfolding flush_round after_send
  flush_round-IsValid r rest n rb ok v =
      let rb₁ = steps zero_value rb r.before in
      let v₁ = steps-IsValid zero_value r.before rb v in
      let v₂ = steps-IsValid zero_value r.during rb₁ v₁ in
      ground (arith, v₁, v₂, ok _ (commit-IsValid zero_value rb₁.head_version _ v₂))

  flush_loop-IsValid :
      (env : ℕ → Round zero_value) (i n : ℕ) (rb : RingBuffer A)
      → IsValid rb
      → IsValid (flush_loop zero_value env i n rb).2
        × (length (flush_loop zero_value env i n rb).1 ≤ n)
  unfolding flush_loop
  flush_loop-IsValid env i zero rb v = (v, omega arith)
  flush_loop-IsValid env i (suc n) rb v =
      flush_round-IsValid (env i) (flush_loop zero_value env (suc i) n) n rb
        (flush_loop-IsValid env (suc i) n) v

  -- Whatever other goroutines do and however the sends end, a flush keeps the buffer valid and makes
  -- at most as many sends as the buffer has slots; one that finds another flush running sends nothing
  -- and changes nothing.
  pub flush_bounds :
      (env : ℕ → Round zero_value) (rb : RingBuffer A)
      → IsValid rb
      → IsValid (flush zero_value true env rb).2
        × (length (flush zero_value true env rb).1 ≤ rb.cap)
        × (flush zero_value false env rb ≡ (busy, [], rb))
  unfolding flush
  flush_bounds env rb v = let h = flush_loop-IsValid env 0 rb.cap rb v in (h.0, h.1, refl)
