-- ===== src/Output/Retained.antt =====
-- What pkg/securityruntime/output.go retains of all that was written.
use labtether_linux.Base.{
  ℕ, zero, suc, ◌-◌, ◌≤◌, ◌≡◌, refl, ap, sym, ◌∙◌, Bool, true, false, Option, none, some, List, [],
  ◌∷◌, ◌++◌, ltb, leb, if◌then◌else◌, length, take, arith, length-append, length-take, take-append,
  take-all, Bool-cases, inl, inr,
}
use mathlib.Core.List.{append_assoc, append-nil}
use native.Mathlib.Nat.{le_refl}
use labtether_linux.Base.Int.{pos}
use labtether_linux.Output.{
  CappedRetainingWriter, new_capped_retaining_writer, write, write_all, CaptureError, payloads,
  output_limit, run_error, capture_combined_output,
}

-- All payloads one behind the other.
unfoldable pub concat : List (List ℕ) → List ℕ
concat [] = []
concat (p ∷ ps) = p ++ concat ps

-- The writer that has seen `seen` in all.
pub record Retains (w : CappedRetainingWriter) (max : ℕ) (seen : List ℕ) : Type 0 where
  pub limit : w.max_bytes ≡ max
  pub prefix : w.bytes ≡ take max seen
  pub flag : w.truncated ≡ ltb max (length seen)

take-append_long : (n : ℕ) (xs ys : List ℕ) → n ≤ length xs → take n (xs ++ ys) ≡ take n xs
take-append_long zero xs ys h = refl
take-append_long (suc n) [] ys h = absurd (omega arith)
take-append_long (suc n) (x ∷ xs) ys h = ap (λ r. x ∷ r) (take-append_long n xs ys (omega arith))

take-min : (n : ℕ) (xs : List ℕ) → take (if ltb (length xs) n then length xs else n) xs ≡ take n xs
take-min n xs = elim (Bool-cases (ltb (length xs) n)) [
  | inl lt ↦
      rw lt (take-all (length xs) xs (le_refl (length xs)) ∙ sym (take-all n xs (ground arith)))
  | inr ge ↦ rw ge
]

-- The bytes after one write, from bytes that are the first `max` of what was seen.
extend-prefix :
    (max : ℕ) (b seen payload : List ℕ)
    → b ≡ take max seen
    → (if ltb 0 (max - length b)
        then b
          ++ take
              (if ltb (length payload) (max - length b) then length payload else max - length b)
              payload
        else b)
      ≡ take max (seen ++ payload)
extend-prefix max b seen payload e = elim (Bool-cases (leb (length seen) max)) [
  | inl short ↦
      let whole : b ≡ seen = e ∙ take-all max seen (ground arith) in
      rw (whole, take-append max seen payload (ground arith))
        (room seen payload (max - length seen))
  | inr long ↦
      let full : (ltb 0 (max - length b)) ≡ false =
        ground (arith, ap length e, length-take max seen) in
      rw full (e ∙ sym (take-append_long max seen payload (ground arith)))
]
  where
    room :
        (seen payload : List ℕ) (r : ℕ)
        → (if ltb 0 r
            then seen ++ take (if ltb (length payload) r then length payload else r) payload
            else seen)
          ≡ seen ++ take r payload
    room seen payload zero = sym (append-nil seen)
    room seen payload (suc r) =
        let e : ltb 0 (suc r) ≡ true = ground arith in
        rw e (ap (◌++◌ seen) (take-min (suc r) payload))

-- The flag after one write.
extend-flag :
    (max : ℕ) (b seen payload : List ℕ) (was : Bool)
    → b ≡ take max seen
    → was ≡ ltb max (length seen)
    → (if ltb
          (if ltb (length payload) (max - length b) then length payload else max - length b)
          (length payload)
        then true
        else was)
      ≡ ltb max (length (seen ++ payload))
extend-flag max b seen payload was e f =
    ground (arith, ap length e, length-take max seen, length-append seen payload)

write-Retains :
    (w : CappedRetainingWriter) (max : ℕ) (seen payload : List ℕ)
    → Retains w max seen
    → Retains (write w payload).1 max (seen ++ payload)
unfolding write
write-Retains w max seen payload r = record {
  limit = r.limit;
  prefix =
      ap
        (λ m.
          if ltb 0 (m - length w.bytes)
          then w.bytes
            ++ take
                (if ltb (length payload) (m - length w.bytes)
                  then length payload
                  else m - length w.bytes)
                payload
          else w.bytes)
        r.limit
      ∙ extend-prefix max w.bytes seen payload r.prefix;
  flag =
      ap
        (λ m.
          if ltb
            (if ltb (length payload) (m - length w.bytes)
              then length payload
              else m - length w.bytes)
            (length payload)
          then true
          else w.truncated)
        r.limit
      ∙ extend-flag max w.bytes seen payload w.truncated r.prefix r.flag;
}

write_all-Retains :
    (w : CappedRetainingWriter) (max : ℕ) (seen : List ℕ) (ps : List (List ℕ))
    → Retains w max seen
    → Retains (write_all w ps) max (seen ++ concat ps)
unfolding write_all concat
write_all-Retains w max seen [] r = rw (append-nil seen) r
write_all-Retains w max seen (p ∷ ps) r =
    rw (← append_assoc seen p (concat ps))
      (write_all-Retains (write w p).1 max (seen ++ p) ps (write-Retains w max seen p r))

new-Retains : (n : ℕ) → Retains (new_capped_retaining_writer (pos n)) n []
unfolding new_capped_retaining_writer
new-Retains n = record {
  limit = refl;
  prefix = sym (take-all n [] (omega arith));
  flag = ground arith;
}

-- A writer with limit `n`, after any sequence of writes, holds exactly the first `n` bytes of all
-- that was written, in order, and its flag says whether there were more.
pub write_all_lem :
    (n : ℕ) (ps : List (List ℕ))
    → let w = write_all (new_capped_retaining_writer (pos n)) ps in
      (w.bytes ≡ take n (concat ps)) × (w.truncated ≡ ltb n (length (concat ps)))
write_all_lem n ps =
    let r = write_all-Retains (new_capped_retaining_writer (pos n)) n [] ps (new-Retains n) in
    (r.prefix, r.flag)

-- What a capture of both streams with a positive limit returns: the first `suc n` bytes of the
-- joined streams, with the error of the process, and the limit error exactly when bytes were lost.
pub capture_combined_output_lem :
    (chunks : List (Bool × List ℕ)) (run_result : Option ℕ) (n : ℕ)
    → let all = concat (payloads chunks) in
      let run_errors : List CaptureError = elim run_result [
        | none ↦ []
        | some e ↦ run_error e ∷ []
      ] in
      capture_combined_output
        (some (record {
          stdout_set = false;
          stderr_set = false;
          chunks = chunks;
          run_result = run_result;
        }))
        (pos (suc n))
      ≡ (
        take (suc n) all,
        if ltb (suc n) (length all) then run_errors ++ (output_limit (suc n) ∷ []) else run_errors,
      )
unfolding capture_combined_output
capture_combined_output_lem chunks run_result n =
    ground (arith, write_all_lem (suc n) (payloads chunks))
