-- ===== src/Output/Tests.antt =====
-- Runs of pkg/securityruntime/output.go.
use labtether_linux.Base.{ℕ, ◌≡◌, Bool, true, false, some, List, [], ◌∷◌}
use labtether_linux.Base.Int.{pos}
use labtether_linux.Output.{
  new_capped_retaining_writer, write_all, run_error, output_limit, capture_combined_output,
  payloads,
}
use labtether_linux.Output.Retained.{write_all_lem, capture_combined_output_lem, concat}

abbrev chatty : List (Bool × List ℕ)
chatty = (true, 1 ∷ 2 ∷ []) ∷ (false, 3 ∷ 4 ∷ []) ∷ (true, 5 ∷ []) ∷ []

write_all_lem_example :
    let w = write_all (new_capped_retaining_writer (pos 3)) ((1 ∷ 2 ∷ []) ∷ (3 ∷ 4 ∷ []) ∷ []) in
    (w.bytes ≡ 1 ∷ 2 ∷ 3 ∷ []) × (w.truncated ≡ true)
unfolding concat
write_all_lem_example = write_all_lem 3 ((1 ∷ 2 ∷ []) ∷ (3 ∷ 4 ∷ []) ∷ [])

capture_combined_output_lem_example :
    capture_combined_output
      (some
        (record { stdout_set = false; stderr_set = false; chunks = chatty; run_result = some 7 }))
      (pos 3)
    ≡ (1 ∷ 2 ∷ 3 ∷ [], run_error 7 ∷ output_limit 3 ∷ [])
unfolding concat payloads
capture_combined_output_lem_example = capture_combined_output_lem chatty (some 7) 2
