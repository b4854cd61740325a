-- ===== src/Ownership/Retire.antt =====
-- What `retire` leaves: internal/agentcore/remoteaccess/webrtc_input_ownership.go.
use labtether_linux.Base.{
  ℕ, ◌≡◌, refl, ap, sym, ◌∙◌, true, ◌&&◌, ◌||◌, not, some, [], ◌∷◌, if◌then◌else◌, arith,
  Bool-cases, inl, inr,
}
use labtether_linux.Base.Text.{Text, text_eq, text_eq_iff}
use labtether_linux.Input.{InputEvent, has, hold}
use labtether_linux.Input.Held.{has-hold}
use labtether_linux.Ownership.{
  Held, InputOwner, InputTarget, owner_of, remove_owner, held_by_other, next_version, retire_holds,
  retire_owner,
}

abbrev one_hold : ℕ → Text → InputEvent → InputTarget → InputTarget
one_hold o key e t =
    if held_by_other key o t.owners
    then t
    else record t { pending = hold key e t.pending; version = next_version t.version }

one_hold_owners :
    (o : ℕ) (key : Text) (e : InputEvent) (t : InputTarget) → (one_hold o key e t).owners ≡ t.owners
one_hold_owners o key e t = ground arith

one_hold_pending :
    (o : ℕ) (key k : Text) (e : InputEvent) (t : InputTarget)
    → has k (one_hold o key e t).pending
      ≡ (has k t.pending || (text_eq key k && not (held_by_other k o t.owners)))
one_hold_pending o key k e t = elim (Bool-cases (text_eq key k)) [
  | inl same ↦ elim (Bool-cases (held_by_other key o t.owners)) [
    | inl shared ↦ simp (same, shared, sym (moved same) ∙ shared) (ground arith)
    | inr alone ↦
        simp (same, alone, sym (moved same) ∙ alone)
          (has-hold k key e t.pending ∙ ground (arith, same))
  ]
  | inr other ↦ elim (Bool-cases (held_by_other key o t.owners)) [
    | inl shared ↦ simp (other, shared) (ground arith)
    | inr alone ↦ simp (other, alone) (has-hold k key e t.pending ∙ ground (arith, other))
  ]
]
  where
    moved : text_eq key k ≡ true → held_by_other key o t.owners ≡ held_by_other k o t.owners
    moved same = ap (λ q. held_by_other q o t.owners) ((text_eq_iff key k).0 same)

pub retire_holds_owners :
    (o : ℕ) (held : Held) (t : InputTarget) → (retire_holds o held t).owners ≡ t.owners
unfolding retire_holds
retire_holds_owners o [] t = refl
retire_holds_owners o ((key, e) ∷ held) t =
    retire_holds_owners o held (one_hold o key e t) ∙ one_hold_owners o key e t

-- The debt grows by the holds that nobody else has.
pub retire_holds_pending :
    (o : ℕ) (k : Text) (held : Held) (t : InputTarget)
    → has k (retire_holds o held t).pending
      ≡ (has k t.pending || (has k held && not (held_by_other k o t.owners)))
unfolding retire_holds
retire_holds_pending o k [] t = ground arith
retire_holds_pending o k ((key, e) ∷ held) t =
    retire_holds_pending o k held (one_hold o key e t)
    ∙ ground
        (arith, one_hold_pending o key k e t, ap (held_by_other k o) (one_hold_owners o key e t))

-- What `retire` does to an owner that is there.
pub record Retired (o : ℕ) (w : InputOwner) (t u : InputTarget) : Type 0 where
  pub owners : u.owners ≡ remove_owner o t.owners
  pub pending :
      (k : Text)
      → has k u.pending ≡ (has k t.pending || (has k w.held && not (held_by_other k o t.owners)))

pub retire_owner-Retired :
    (o : ℕ) (w : InputOwner) (t : InputTarget)
    → owner_of o t.owners ≡ some w
    → Retired o w t (retire_owner o t)
unfolding retire_owner
retire_owner-Retired o w t e = simp e (record {
  owners = ap (remove_owner o) (retire_holds_owners o w.held t);
  pending = λ k. retire_holds_pending o k w.held t;
})
