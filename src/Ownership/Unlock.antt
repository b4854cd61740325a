-- ===== src/Ownership/Unlock.antt =====
-- The loop of `unlock` in internal/agentcore/remoteaccess/webrtc_input_ownership.go.
use labtether_linux.Base.{
  ℕ, zero, suc, ◌+◌, ◌≡◌, refl, subst, Bool, true, false, ◌&&◌, ◌||◌, not, Option, none, some, List,
  [], ◌∷◌, ◌++◌, if◌then◌else◌, ◌==◌, arith, Bool-cases, inl, inr,
}
use labtether_linux.Ownership.{InputTarget, retire_owner, reap}

-- What others do around one flush of the loop: the owners that retire before it reads the debt and after, how
-- the release ends, and whether the context is done by the next test. Owners that come meanwhile change neither
-- the debt nor the version.
pub record Round : Type 0 where
  pub early : List ℕ
  pub worked : Bool
  pub late : List ℕ
  pub done : Bool

pub data UnlockError : Type 0 where
  context_done release_error : UnlockError

abbrev pub is_nil {ℓ} : {A : Type ℓ} → List A → Bool
is_nil [] = true
is_nil (a ∷ rest) = false

pub retire_all : List ℕ → InputTarget → InputTarget
retire_all [] t = t
retire_all (o ∷ owners) t = retire_all owners (retire_owner o t)

-- `flush`: the target, the version that it read, and its error.
pub unlock_round : Round → InputTarget → InputTarget × ℕ × List UnlockError
unlock_round r t =
    let read = retire_all r.early t in
    let after = retire_all r.late read in
    if is_nil read.pending
    then (after, read.version, [])
    else if r.worked
    then (record after { pending = reap read.pending after.pending }, read.version, [])
    else (after, read.version, release_error ∷ [])

-- No debt, all of it tried, or no more time.
abbrev pub is_over : Bool → ℕ → InputTarget → Bool
is_over done attempted t = is_nil t.pending || t.version == attempted || done

-- `unlock` on fuel: the target when the gate is given back, and the failures.
pub unlock :
    ℕ
    → (ℕ → Round)
    → ℕ
    → Bool
    → ℕ
    → List UnlockError
    → InputTarget
    → Option (InputTarget × List UnlockError)
unlock zero rounds i done attempted failures t = none
unlock (suc n) rounds i done attempted failures t =
    let r = unlock_round (rounds i) t in
    let rest = unlock n rounds (i + 1) (rounds i).done r.1 (failures ++ r.2) r.0 in
    if is_over done attempted t
    then some
        (t, if not (is_nil t.pending) && done then failures ++ (context_done ∷ []) else failures)
    else rest

abbrev pub is_given_back : Option (InputTarget × List UnlockError) → Bool
is_given_back none = false
is_given_back (some r) = true

-- The round leaves nothing to do: nobody retires once its flush has read the debt, or the context is done.
abbrev pub is_last_round : Round → Bool
is_last_round r = is_nil r.late || r.done

-- With nobody retiring late, the version stays as the flush read it.
unlock_round_version :
    (r : Round) (t : InputTarget)
    → is_nil r.late ≡ true
    → (unlock_round r t).0.version ≡ (unlock_round r t).1
unfolding unlock_round retire_all
unlock_round_version r t h = elim (Bool-cases (is_nil (retire_all r.early t).pending)) [
  | inl paid ↦ rw (paid) (alone r.late h)
  | inr owed ↦ elim (Bool-cases r.worked) [
    | inl worked ↦ rw (owed, worked) (alone r.late h)
    | inr failed ↦ rw (owed, failed) (alone r.late h)
  ]
]
  where
    alone :
        (late : List ℕ)
        → is_nil late ≡ true
        → (retire_all late (retire_all r.early t)).version ≡ (retire_all r.early t).version
    alone [] h = refl
    alone (o ∷ late) h = cc

over_after_last :
    (r : Round) (t : InputTarget)
    → is_last_round r ≡ true
    → is_over r.done (unlock_round r t).1 (unlock_round r t).0 ≡ true
over_after_last r t h = elim (Bool-cases (is_nil r.late)) [
  | inl quiet ↦ rw (unlock_round_version r t quiet) (ground arith)
  | inr busy ↦ ground (arith, h, busy)
]

-- The loop of `unlock` ends: when nobody retires during the flush of some round, or the context is done by its
-- end, then the gate is given back after that round at the latest.
pub unlock-is_given_back :
    (rounds : ℕ → Round) (n i : ℕ) (done : Bool) (attempted : ℕ) (failures : List UnlockError)
    (t : InputTarget)
    → is_last_round (rounds (i + n)) ≡ true
    → is_given_back (unlock (suc (suc n)) rounds i done attempted failures t) ≡ true
unfolding unlock
unlock-is_given_back rounds zero i done attempted failures t h =
    elim (Bool-cases (is_over done attempted t)) [
      | inl over ↦ rw over refl
      | inr more ↦
          rw
            (
              more,
              over_after_last (rounds i) t
                  (subst (λ k. is_last_round (rounds k) ≡ true) (omega arith) h),
            )
            refl
    ]
unlock-is_given_back rounds (suc n) i done attempted failures t h =
    elim (Bool-cases (is_over done attempted t)) [
      | inl over ↦ rw over refl
      | inr more ↦
          let r = unlock_round (rounds i) t in
          rw more (
            unlock-is_given_back rounds n (i + 1) (rounds i).done r.1 (failures ++ r.2) r.0
              (subst (λ k. is_last_round (rounds k) ≡ true) (omega arith) h))
    ]
