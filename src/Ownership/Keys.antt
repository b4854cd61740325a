-- ===== src/Ownership/Keys.antt =====
-- Who holds a key: internal/agentcore/remoteaccess/webrtc_input_ownership.go.
use labtether_linux.Base.{
  ℕ, ◌≡◌, refl, ap, ◌∙◌, Bool, false, ◌&&◌, ◌||◌, not, some, List, [], ◌∷◌, ◌==◌, arith, Bool-cases,
  inl, inr,
}
use labtether_linux.Base.Text.{Text}
use labtether_linux.Input.{has, delete_key}
use labtether_linux.Input.Held.{has-delete_key}
use labtether_linux.Ownership.{
  Held, InputOwner, InputTarget, acquire_owner, owner_of, update_owner, remove_owner, held_by_other,
  reap,
}

-- Some owner holds the key.
unfoldable pub held_any : Text → List (ℕ × InputOwner) → Bool
held_any k [] = false
held_any k ((i, w) ∷ owners) = has k w.held || held_any k owners

unfoldable pub is_owner : ℕ → List (ℕ × InputOwner) → Bool
is_owner o [] = false
is_owner o ((i, w) ∷ owners) = i == o || is_owner o owners

-- No handle stands for two owners.
abbrev pub AreDistinct : List (ℕ × InputOwner) → Type 0
AreDistinct [] = Unit
AreDistinct ((i, w) ∷ owners) = (is_owner i owners ≡ false) × AreDistinct owners

-- Without the owner itself all holders are others.
held_by_other-alone :
    (k : Text) (o : ℕ) (owners : List (ℕ × InputOwner))
    → is_owner o owners ≡ false
    → held_by_other k o owners ≡ held_any k owners
unfolding held_by_other held_any is_owner
held_by_other-alone k o [] h = refl
held_by_other-alone k o ((i, w) ∷ owners) h = ground (arith, held_by_other-alone k o owners)

pub held_any-remove_owner :
    (k : Text) (o : ℕ) (owners : List (ℕ × InputOwner))
    → AreDistinct owners
    → held_any k (remove_owner o owners) ≡ held_by_other k o owners
unfolding held_by_other held_any remove_owner
held_any-remove_owner k o [] d = refl
held_any-remove_owner k o ((i, w) ∷ owners) d = elim (Bool-cases (i == o)) [
  | inl same ↦ ground (arith, same, held_by_other-alone k i owners d.0)
  | inr other ↦ ground (arith, other, held_any-remove_owner k o owners d.1)
]

-- A key is held by an owner or by others.
pub held_any-split :
    (k : Text) (o : ℕ) (w : InputOwner) (owners : List (ℕ × InputOwner))
    → AreDistinct owners
    → owner_of o owners ≡ some w
    → held_any k owners ≡ (has k w.held || held_by_other k o owners)
unfolding held_by_other held_any owner_of
held_any-split k o w [] d e = cc
held_any-split k o w ((i, v) ∷ owners) d e = elim (Bool-cases (i == o)) [
  | inl same ↦ ground (arith, same, e, held_by_other-alone k i owners d.0)
  | inr other ↦ ground (arith, other, held_any-split k o w owners d.1 (ground (arith, other, e)))
]

module _ (o : ℕ) (f : InputOwner → InputOwner) where
  pub held_by_other-update_owner :
      (k : Text) (owners : List (ℕ × InputOwner))
      → held_by_other k o (update_owner o f owners) ≡ held_by_other k o owners
  unfolding held_by_other update_owner
  held_by_other-update_owner k [] = refl
  held_by_other-update_owner k ((i, w) ∷ owners) =
      ground (arith, held_by_other-update_owner k owners)

  pub owner_of-update_owner :
      (w : InputOwner) (owners : List (ℕ × InputOwner))
      → owner_of o owners ≡ some w
      → owner_of o (update_owner o f owners) ≡ some (f w)
  unfolding owner_of update_owner
  owner_of-update_owner w [] e = cc
  owner_of-update_owner w ((i, v) ∷ owners) e = elim (Bool-cases (i == o)) [
    | inl same ↦ simp same (ap (λ u. some (f u)) (ground (arith, same, e)))
    | inr other ↦ simp other (owner_of-update_owner w owners (simp other at e))
  ]

  is_owner-update_owner :
      (p : ℕ) (owners : List (ℕ × InputOwner))
      → is_owner p (update_owner o f owners) ≡ is_owner p owners
  unfolding is_owner update_owner
  is_owner-update_owner p [] = refl
  is_owner-update_owner p ((i, w) ∷ owners) = ground (arith, is_owner-update_owner p owners)

  pub update_owner-AreDistinct :
      (owners : List (ℕ × InputOwner)) → AreDistinct owners → AreDistinct (update_owner o f owners)
  unfolding update_owner
  update_owner-AreDistinct [] d = tt
  update_owner-AreDistinct ((i, w) ∷ owners) d = elim (Bool-cases (i == o)) [
    | inl same ↦ rw same d
    | inr other ↦
        rw other (is_owner-update_owner i owners ∙ d.0, update_owner-AreDistinct owners d.1)
  ]

is_owner-remove_owner :
    (p o : ℕ) (owners : List (ℕ × InputOwner))
    → is_owner p owners ≡ false
    → is_owner p (remove_owner o owners) ≡ false
unfolding is_owner remove_owner
is_owner-remove_owner p o [] h = refl
is_owner-remove_owner p o ((i, w) ∷ owners) h = ground (arith, h, is_owner-remove_owner p o owners)

pub remove_owner-AreDistinct :
    (o : ℕ) (owners : List (ℕ × InputOwner))
    → AreDistinct owners
    → AreDistinct (remove_owner o owners)
unfolding remove_owner
remove_owner-AreDistinct o [] d = tt
remove_owner-AreDistinct o ((i, w) ∷ owners) d = elim (Bool-cases (i == o)) [
  | inl same ↦ rw same d.1
  | inr other ↦
      rw other (is_owner-remove_owner i o owners d.0, remove_owner-AreDistinct o owners d.1)
]

-- Fewer owners hold no more.
pub held_by_other-remove_owner :
    (k : Text) (o p : ℕ) (owners : List (ℕ × InputOwner))
    → held_by_other k o owners ≡ false
    → held_by_other k o (remove_owner p owners) ≡ false
unfolding held_by_other remove_owner
held_by_other-remove_owner k o p [] h = refl
held_by_other-remove_owner k o p ((i, w) ∷ owners) h =
    ground (arith, h, held_by_other-remove_owner k o p owners)

pub owner_of-remove_owner :
    (o p : ℕ) (owners : List (ℕ × InputOwner))
    → (o == p) ≡ false
    → owner_of o (remove_owner p owners) ≡ owner_of o owners
unfolding owner_of remove_owner
owner_of-remove_owner o p [] h = refl
owner_of-remove_owner o p ((i, w) ∷ owners) h = ground (arith, h, owner_of-remove_owner o p owners)

-- What is left of the debt after a batch.
pub has-reap :
    (k : Text) (batch pending : Held)
    → has k (reap batch pending) ≡ (not (has k batch) && has k pending)
unfolding reap
has-reap k [] pending = ground arith
has-reap k ((j, e) ∷ batch) pending =
    ground (arith, has-reap k batch (delete_key j pending), has-delete_key k j pending)

-- A handle that no owner has is not that of an owner.
pub owner_of_other :
    (o p : ℕ) (w : InputOwner) (owners : List (ℕ × InputOwner))
    → is_owner o owners ≡ false
    → owner_of p owners ≡ some w
    → (o == p) ≡ false
unfolding owner_of is_owner
owner_of_other o p w [] new e = cc
owner_of_other o p w ((i, v) ∷ owners) new e = elim (Bool-cases (i == p)) [
  | inl same ↦ ground (arith, same, new)
  | inr other ↦ owner_of_other o p w owners (ground (arith, new)) (ground (arith, other, e))
]

pub held_any-acquire_owner :
    (k : Text) (o : ℕ) (t : InputTarget)
    → held_any k (acquire_owner o t).owners ≡ held_any k t.owners
unfolding held_any acquire_owner
held_any-acquire_owner k o t = refl

pub acquire_owner-AreDistinct :
    (o : ℕ) (t : InputTarget)
    → is_owner o t.owners ≡ false
    → AreDistinct t.owners
    → AreDistinct (acquire_owner o t).owners
unfolding acquire_owner
acquire_owner-AreDistinct o t new d = (new, d)

pub held_by_other-acquire_owner :
    (k : Text) (o p : ℕ) (t : InputTarget)
    → held_by_other k p (acquire_owner o t).owners ≡ held_by_other k p t.owners
unfolding held_by_other acquire_owner
held_by_other-acquire_owner k o p t = ground arith

pub owner_of-acquire_owner :
    (o p : ℕ) (t : InputTarget)
    → (o == p) ≡ false
    → owner_of p (acquire_owner o t).owners ≡ owner_of p t.owners
unfolding owner_of acquire_owner
owner_of-acquire_owner o p t h = rw h refl
