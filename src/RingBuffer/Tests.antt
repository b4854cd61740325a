-- ===== src/RingBuffer/Tests.antt =====
-- Runs of internal/agentcore/ring_buffer.go on a buffer of three slots.
use labtether_linux.Base.{ℕ, zero, suc, ◌≤◌, ◌≡◌, refl, List, [], ◌∷◌, arith, length, false, true}
use labtether_linux.RingBuffer.{
  RingBuffer, Outcome, pushes, drains, Sent, delivered, discarded, failed, send_error, busy, push,
  drain, commit, step, steps, flush, flush_loop, flush_round, after_send,
}
use labtether_linux.RingBuffer.Inv.{IsValid, steps-IsValid}
use labtether_linux.RingBuffer.Order.{contents, operations_are_of_queue, queue_push}
use labtether_linux.RingBuffer.Flush.{
  commit_after_send, flush-quiet, flush_bounds, deliver, quiet, head_moves,
}

-- 7, 8 and 9, round the end of the slots.
abbrev full : RingBuffer ℕ
full = record { buf = 9 ∷ 7 ∷ 8 ∷ []; head = 1; size = 3; cap = 3; head_version = 4 }

abbrev two_items : RingBuffer ℕ
two_items = record { buf = 0 ∷ 7 ∷ 8 ∷ []; head = 1; size = 2; cap = 3; head_version = 4 }

full-IsValid : IsValid full
full-IsValid = omega arith

two_items-IsValid : IsValid two_items
two_items-IsValid = omega arith

-- 8 is the item that no receiver takes.
abbrev rejects_eight : ℕ → Sent
rejects_eight (suc (suc (suc (suc (suc (suc (suc (suc zero)))))))) = failed
rejects_eight n = delivered

push_over : contents 0 (push 0 5 full) ≡ 8 ∷ 9 ∷ 5 ∷ []
unfolding push
push_over = refl

flush_all : (flush 0 true (quiet 0 (λ x. discarded)) full).1 ≡ 7 ∷ 8 ∷ 9 ∷ []
unfolding flush flush_loop flush_round after_send steps commit
flush_all = refl

steps-IsValid_example : IsValid (steps 0 full (pushes 5 ∷ drains ∷ pushes 6 ∷ []))
steps-IsValid_example = steps-IsValid 0 (pushes 5 ∷ drains ∷ pushes 6 ∷ []) full full-IsValid

operations_are_of_queue_example :
    (contents 0 (push 0 5 full) ≡ queue_push 3 5 (7 ∷ 8 ∷ 9 ∷ []))
    × ((drain 0 full).0 ≡ 7 ∷ 8 ∷ 9 ∷ [])
    × (contents 0 (drain 0 full).1 ≡ [])
operations_are_of_queue_example = operations_are_of_queue 0 5 full full-IsValid

-- Two pushes during the send of 7 overwrite it: the commit removes nothing.
commit_after_send_example :
    contents 0 (commit 0 4 (steps 0 two_items (pushes 5 ∷ pushes 6 ∷ [])))
    ≡ contents 0 (steps 0 two_items (pushes 5 ∷ pushes 6 ∷ []))
unfolding head_moves step push
commit_after_send_example =
    commit_after_send 0 two_items (pushes 5 ∷ pushes 6 ∷ []) two_items-IsValid (omega arith)
      (omega arith)

flush-quiet_example :
    let (o, sent, rb) = flush 0 true (quiet 0 rejects_eight) full in
    ◌≡◌ {A = Outcome × List ℕ × List ℕ}
      (o, sent, contents 0 rb)
      (send_error, 7 ∷ 8 ∷ [], 8 ∷ 9 ∷ [])
unfolding deliver
flush-quiet_example = flush-quiet 0 rejects_eight full full-IsValid

flush_bounds_example :
    IsValid (flush 0 true (quiet 0 rejects_eight) full).2
    × (length (flush 0 true (quiet 0 rejects_eight) full).1 ≤ 3)
    × (flush 0 false (quiet 0 rejects_eight) full ≡ (busy, [], full))
flush_bounds_example = flush_bounds 0 (quiet 0 rejects_eight) full full-IsValid
