-- ===== src/RingBuffer/Order.antt =====
-- The operations of internal/agentcore/ring_buffer.go as operations on a bounded queue.
use labtether_linux.Base.{
  ℕ, suc, ◌+◌, ◌-◌, ◌<◌, ◌%◌, ◌≡◌, ◌≢◌, ap, sym, ◌∙◌, List, [], ◌∷◌, ◌++◌, arith, length, set, true,
  false, ltb, ◌==◌, if◌then◌else◌, drop, inl, inr, ◌&&◌, Bool-cases,
}
use labtether_linux.RingBuffer.{RingBuffer, push, drain, commit}
use labtether_linux.RingBuffer.Inv.{IsValid}
use labtether_linux.RingBuffer.Entries.{
  slot_cases, entries, length-entries, entries-next, entries-set_after, entries-snoc,
  entries-overwrite, drain_loop-entries,
}

-- A queue of at most `cap` items that makes room by dropping the oldest.
unfoldable pub queue_push {ℓ} : {A : Type ℓ} → ℕ → A → List A → List A
queue_push cap x q = if ltb (length q) cap then q ++ (x ∷ []) else drop 1 q ++ (x ∷ [])

module _ {ℓ} {A : Type ℓ} (zero_value : A) where
  -- What the buffer holds, oldest first.
  abbrev pub contents : RingBuffer A → List A
  contents rb = entries zero_value rb.cap rb.buf rb.head 0 rb.size

  pub length-contents : (rb : RingBuffer A) → length (contents rb) ≡ rb.size
  length-contents rb = length-entries zero_value rb.cap rb.buf rb.head 0 rb.size

  push_room :
      (item : A) (rb : RingBuffer A)
      → IsValid rb
      → rb.size < rb.cap
      → contents (push zero_value item rb) ≡ contents rb ++ (item ∷ [])
  unfolding push
  push_room item rb v h =
      rw (lt, push)
        (rw suc_size
          (entries-snoc zero_value rb.cap rb.buf rb.head rb.size item v.slots v.head_in h))
    where
      lt : ltb rb.size rb.cap ≡ true
      lt = ground arith

      suc_size : rb.size + 1 ≡ suc rb.size
      suc_size = omega arith

  push_full :
      (item : A) (rb : RingBuffer A) (c : ℕ)
      → IsValid rb
      → rb.size ≡ rb.cap
      → rb.cap ≡ suc c
      → contents (push zero_value item rb) ≡ drop 1 (contents rb) ++ (item ∷ [])
  unfolding push
  push_full item rb c v h e =
      rw (ge, push)
        (entries-next zero_value rb.cap written rb.head 0 rb.size
          ∙ (ap (entries zero_value rb.cap written rb.head 1) sized
              ∙ ap
                  (λ k.
                    entries zero_value rb.cap (set rb.buf ((rb.head + k) % rb.cap) item) rb.head 1
                      (suc c))
                  h
              ∙ entries-overwrite zero_value rb.cap rb.buf rb.head c item v.slots v.head_in e
              ∙ ap (λ k. drop 1 (entries zero_value rb.cap rb.buf rb.head 0 k) ++ (item ∷ []))
                  (sym sized)))
    where
      written : List A
      written = set rb.buf ((rb.head + rb.size) % rb.cap) item

      ge : ltb rb.size rb.cap ≡ false
      ge = ground arith

      sized : rb.size ≡ suc c
      sized = h ∙ e

  pub contents-push :
      (item : A) (rb : RingBuffer A)
      → IsValid rb
      → contents (push zero_value item rb) ≡ queue_push rb.cap item (contents rb)
  unfolding queue_push
  contents-push item rb v = elim (Bool-cases (ltb rb.size rb.cap)) [
    | inl lt ↦ rw (length-contents rb, lt) (push_room item rb v (ground arith))
    | inr ge ↦
        rw (length-contents rb, ge)
          (push_full item rb (rb.cap - 1) v (ground (arith, v.size_in)) (omega (arith, v.head_in)))
  ]

  -- `Drain` returns the queue and leaves an empty one.
  drain_lem :
      (rb : RingBuffer A)
      → IsValid rb
      → ((drain zero_value rb).0 ≡ contents rb) × (contents (drain zero_value rb).1 ≡ [])
  unfolding drain
  drain_lem rb v = elim (Bool-cases (rb.size == 0)) [
    | inl empty ↦
        let none_left : rb.size ≡ 0 = ground arith in
        (
          rw (empty, drain) (ap (entries zero_value rb.cap rb.buf rb.head 0) (sym none_left)),
          rw (empty, drain) (ap (entries zero_value rb.cap rb.buf rb.head 0) none_left),
        )
    | inr more ↦ (
      rw (more, drain)
          (drain_loop-entries zero_value rb.cap rb.head rb.buf 0 rb.size v.head_in
            (omega (arith, v.size_in))),
      rw (more, drain),
    )
  ]

  -- On a valid buffer, a push is a push into a bounded queue that drops its oldest item to make room, and a
  -- drain returns the queue, oldest first, and leaves an empty one.
  pub operations_are_of_queue :
      (item : A) (rb : RingBuffer A)
      → IsValid rb
      → (contents (push zero_value item rb) ≡ queue_push rb.cap item (contents rb))
        × ((drain zero_value rb).0 ≡ contents rb)
        × (contents (drain zero_value rb).1 ≡ [])
  operations_are_of_queue item rb v = let d = drain_lem rb v in (contents-push item rb v, d.0, d.1)

  commit_head :
      (rb : RingBuffer A) (n : ℕ)
      → IsValid rb
      → rb.size ≡ suc n
      → contents (commit zero_value rb.head_version rb) ≡ drop 1 (contents rb)
  unfolding commit
  commit_head rb n v e =
      rw (test, commit)
        (entries-next zero_value rb.cap cleared rb.head 0 (rb.size - 1)
          ∙ (ap (entries zero_value rb.cap cleared rb.head 1) less
              ∙ ap (λ k. entries zero_value rb.cap (set rb.buf k zero_value) rb.head 1 n) here
              ∙ entries-set_after zero_value rb.cap rb.buf rb.head 1 n 0 zero_value v.head_in
                  (omega arith) (omega (arith, v.size_in))
              ∙ ap (λ k. drop 1 (entries zero_value rb.cap rb.buf rb.head 0 k)) (sym e)))
    where
      cleared : List A
      cleared = set rb.buf rb.head zero_value

      test : (ltb 0 rb.size && (rb.head_version == rb.head_version)) ≡ true
      test = ground arith

      less : rb.size - 1 ≡ n
      less = omega arith

      here : rb.head ≡ (rb.head + 0) % rb.cap
      here = omega (arith, slot_cases rb.cap rb.head 0 v.head_in)

  -- A commit at the current version takes exactly the head off.
  pub commit_current :
      (rb : RingBuffer A)
      → IsValid rb
      → contents (commit zero_value rb.head_version rb) ≡ drop 1 (contents rb)
  unfolding commit
  commit_current rb v = elim (Bool-cases (ltb 0 rb.size)) [
    | inl more ↦ commit_head rb (rb.size - 1) v (ground arith)
    | inr empty ↦
        let none_left : rb.size ≡ 0 = ground arith in
        rw (empty, commit)
          (ap (entries zero_value rb.cap rb.buf rb.head 0) none_left
            ∙ ap (λ k. drop 1 (entries zero_value rb.cap rb.buf rb.head 0 k)) (sym none_left))
  ]

  -- A commit at another version changes nothing.
  pub commit_stale :
      (version : ℕ) (rb : RingBuffer A)
      → rb.head_version ≢ version
      → commit zero_value version rb ≡ rb
  unfolding commit
  commit_stale version rb h = ground arith
