-- ===== src/Output.antt =====
-- The capped output capture of pkg/securityruntime/output.go. A subprocess is the chunks that it
-- writes to its two streams, in the order in which the pipe copiers deliver them, and how it ended.
pub mod Retained
mod Tests
use labtether_linux.Base.{
  ℕ, ◌-◌, Bool, true, false, Option, none, some, List, [], ◌∷◌, ◌++◌, ltb, leb, if◌then◌else◌,
  length, take,
}
use labtether_linux.Base.Int.{ℤ, pos, negsuc}

-- The mutex makes each call one step.
pub record CappedRetainingWriter : Type 0 where
  pub bytes : List ℕ
  pub max_bytes : ℕ
  pub truncated : Bool

pub new_capped_retaining_writer : ℤ → CappedRetainingWriter
new_capped_retaining_writer (pos n) = record { bytes = []; max_bytes = n; truncated = false }
new_capped_retaining_writer (negsuc n) = record { bytes = []; max_bytes = 0; truncated = false }

-- `Write`: the count that it reports, and the writer after it. `remaining` is never negative, since
-- the writer never holds more than `max_bytes`.
pub write : CappedRetainingWriter → List ℕ → ℕ × CappedRetainingWriter
write w payload =
    let room = w.max_bytes - length w.bytes in
    let remaining = if ltb (length payload) room then length payload else room in
    let data_after = if ltb 0 room then w.bytes ++ take remaining payload else w.bytes in
    (
      length payload,
      record w {
        bytes = data_after;
        truncated = if ltb remaining (length payload) then true else w.truncated;
      },
    )

pub write_byte : CappedRetainingWriter → ℕ → CappedRetainingWriter
write_byte w value = (write w (value ∷ [])).1

pub write_all : CappedRetainingWriter → List (List ℕ) → CappedRetainingWriter
write_all w [] = w
write_all w (p ∷ ps) = write_all (write w p).1 ps

pub data CaptureError : Type 0 where
  limit_not_positive stdout_already_set stderr_already_set command_required : CaptureError
  output_limit : ℕ → CaptureError
  run_error : ℕ → CaptureError

-- `exec.Cmd`: whether its streams are set already, what it will write, and the error of `Run`, by
-- number, if any. A chunk is marked `true` if it goes to stdout.
pub record Cmd : Type 0 where
  pub stdout_set : Bool
  pub stderr_set : Bool
  pub chunks : List (Bool × List ℕ)
  pub run_result : Option ℕ

pub payloads : List (Bool × List ℕ) → List (List ℕ)
payloads [] = []
payloads ((s, p) ∷ cs) = p ∷ payloads cs

pub stdout_payloads : List (Bool × List ℕ) → List (List ℕ)
stdout_payloads [] = []
stdout_payloads ((true, p) ∷ cs) = p ∷ stdout_payloads cs
stdout_payloads ((false, p) ∷ cs) = stdout_payloads cs

-- The retained bytes with the joined errors, which are none on success.
pub captured : ℕ → CappedRetainingWriter → Option ℕ → List ℕ × List CaptureError
captured max_bytes output run_result =
    let run_errors : List CaptureError = elim run_result [
      | none ↦ []
      | some e ↦ run_error e ∷ []
    ] in
    (
      output.bytes,
      if output.truncated then run_errors ++ (output_limit max_bytes ∷ []) else run_errors,
    )

-- `none` is a nil command.
pub capture_combined_output : Option Cmd → ℤ → List ℕ × List CaptureError
unfolding captured payloads
capture_combined_output none max_bytes = ([], command_required ∷ [])
capture_combined_output (some cmd) (negsuc n) = ([], limit_not_positive ∷ [])
capture_combined_output (some cmd) (pos n) =
    if leb n 0
    then ([], limit_not_positive ∷ [])
    else if cmd.stdout_set
    then ([], stdout_already_set ∷ [])
    else if cmd.stderr_set
    then ([], stderr_already_set ∷ [])
    else captured n (write_all (new_capped_retaining_writer (pos n)) (payloads cmd.chunks))
        cmd.run_result

-- The standard error that `CaptureOutput` keeps for an `exec.ExitError` is not modelled.
pub capture_output : Option Cmd → ℤ → List ℕ × List CaptureError
unfolding captured stdout_payloads
capture_output none max_bytes = ([], command_required ∷ [])
capture_output (some cmd) (negsuc n) = ([], limit_not_positive ∷ [])
capture_output (some cmd) (pos n) =
    if leb n 0
    then ([], limit_not_positive ∷ [])
    else if cmd.stdout_set
    then ([], stdout_already_set ∷ [])
    else captured n (write_all (new_capped_retaining_writer (pos n)) (stdout_payloads cmd.chunks))
        cmd.run_result
