-- ===== src/Ownership/Inv/Turn.antt =====
-- The critical sections of `inject`: internal/agentcore/remoteaccess/webrtc_input_ownership.go.
use labtether_linux.Base.{
  ℕ, ◌≡◌, refl, ap, sym, subst, ◌∙◌, Bool, true, false, ◌&&◌, ◌||◌, not, some, leb, length, arith,
  Bool-cases, inl, inr,
}
use labtether_linux.Base.Result.{Result, ok, err}
use labtether_linux.Base.Text.{Text, text_eq, text_eq_refl, text_eq_iff, is_empty}
use labtether_linux.Input.{
  InputEvent, is_down, is_up, has, hold, delete_key, release_of, held_input_key,
  max_held_web_rtc_inputs,
}
use labtether_linux.Input.Held.{has-hold, has-delete_key}
use labtether_linux.Input.Pressed.{up_or_down}
use labtether_linux.Ownership.{
  Held, InputOwner, InputTarget, InputError, owner_of, update_owner, held_by_other,
  has_other_binding, has_input_capacity, reserve_input, forget, give_back, prepare_input,
  lift_input,
}
use labtether_linux.Ownership.Keys.{
  held_any, AreDistinct, held_any-split, held_by_other-update_owner, owner_of-update_owner,
  update_owner-AreDistinct,
}
use labtether_linux.Ownership.System.{todo_of, lifted}
use labtether_linux.Ownership.Inv.{TodoReady, Sound}

-- One owner changes what it holds.
module _ (o : ℕ) (w : InputOwner) (f : InputOwner → InputOwner) (t : InputTarget)
    (there : owner_of o t.owners ≡ some w) (distinct : AreDistinct t.owners) where
  held_any-update_owner :
      (k : Text)
      → held_any k (update_owner o f t.owners) ≡ (has k (f w).held || held_by_other k o t.owners)
  held_any-update_owner k =
      held_any-split k o (f w) (update_owner o f t.owners)
        (update_owner-AreDistinct o f t.owners distinct)
        (owner_of-update_owner o f w t.owners there)
      ∙ ap (λ b. has k (f w).held || b) (held_by_other-update_owner o f k t.owners)

  -- The new target is sound when the key that changes is right.
  updated-Sound :
      (down down' : Text → Bool) (pending' : Held)
      → Sound t down
      → ((k : Text) → (has k pending' && (has k (f w).held || held_by_other k o t.owners)) ≡ false)
      → ((k : Text)
          → (not (is_empty k)
              && down' k
              && not (has k pending' || (has k (f w).held || held_by_other k o t.owners)))
            ≡ false)
      → Sound (record t { owners = update_owner o f t.owners; pending = pending' }) down'
  updated-Sound down down' pending' s a k = record {
    distinct = update_owner-AreDistinct o f t.owners distinct;
    apart = λ q. ground (arith, a q, held_any-update_owner q);
    kept = λ q. ground (arith, k q, held_any-update_owner q);
  }

module _ (o : ℕ) (w : InputOwner) (logical key : Text) (t : InputTarget)
    (there : owner_of o t.owners ≡ some w) (down : Text → Bool) (s : Sound t down) where
  -- What the owner holds is nobody's debt.
  debt : (q : Text) → (has q t.pending && (has q w.held || held_by_other q o t.owners)) ≡ false
  debt q = ground (arith, s.apart q, held_any-split q o w t.owners s.distinct there)

  kept :
      (q : Text)
      → (not (is_empty q)
          && down q
          && not (has q t.pending || (has q w.held || held_by_other q o t.owners)))
        ≡ false
  kept q = ground (arith, s.kept q, held_any-split q o w t.owners s.distinct there)

  reserve_input-Sound : (e : InputEvent) → Sound (reserve_input o logical key e t) down
  reserve_input-Sound e =
      updated-Sound o w
        (λ v. record {
          held = hold key (release_of e) v.held;
          bindings = hold logical (release_of e) v.bindings;
        })
        t there s.distinct down down (delete_key key t.pending) s
        (λ q.
          ground
            (arith, debt q, has-hold q key (release_of e) w.held, has-delete_key q key t.pending))
        (λ q.
          ground
            (arith, kept q, has-hold q key (release_of e) w.held, has-delete_key q key t.pending))

  -- Another owner holds the key that this one forgets.
  shared_key :
      held_by_other key o t.owners ≡ true
      → (q : Text) → (text_eq key q && not (held_by_other q o t.owners)) ≡ false
  shared_key h q = elim (Bool-cases (text_eq key q)) [
    | inl same ↦ rw (same, sym ((text_eq_iff key q).0 same), h) refl
    | inr other ↦ rw other refl
  ]

  forget-Sound :
      (whole : Bool)
      → (whole && not (held_by_other key o t.owners)) ≡ false
      → Sound (record t { owners = update_owner o (forget logical key whole) t.owners }) down
  forget-Sound true h =
      updated-Sound o w (forget logical key true) t there s.distinct down down t.pending s
        (λ q. ground (arith, debt q, has-delete_key q key w.held))
        (λ q. ground (arith, kept q, shared_key (ground (arith, h)) q, has-delete_key q key w.held))
  forget-Sound false h =
      updated-Sound o w (forget logical key false) t there s.distinct down down t.pending s debt
        kept

  pub lift_input-Sound : Sound (lift_input o logical key t) (lifted key down)
  unfolding lift_input
  lift_input-Sound =
      updated-Sound o w (forget logical key true) t there s.distinct down (lifted key down)
        t.pending s (λ q. ground (arith, debt q, has-delete_key q key w.held))
        (λ q. ground (arith, kept q, has-delete_key q key w.held))

-- The first critical section of `inject` for an owner that is there.
module _ (wayland : Bool) (o : ℕ) (w : InputOwner) (logical : Text) (owns : Bool) (e : InputEvent)
    (t : InputTarget) (there : owner_of o t.owners ≡ some w) (down : Text → Bool)
    (s : Sound t down) where
  abbrev Prepared : Bool → InputTarget → Type 0
  Prepared skip u = Sound u down × TodoReady wayland u (todo_of skip o logical e)

  abbrev key : Text
  key = held_input_key wayland e

  reserve_input-Prepared : is_down e ≡ true → Prepared false (reserve_input o logical key e t)
  reserve_input-Prepared d = (
    reserve_input-Sound o w logical key t there down s e,
    record {
      owner = record {
        held = hold key (release_of e) w.held;
        bindings = hold logical (release_of e) w.bindings;
      };
      there = owner_of-update_owner o _ w t.owners there;
      presses = ground (arith, has-hold key key (release_of e) w.held, text_eq_refl key);
      lifts = simp (up_or_down e d) refl;
    },
  )

  down_or_up : is_up e ≡ true → is_down e ≡ false
  down_or_up up = ground (arith, up, up_or_down e)

  give_back-Prepared :
      is_up e ≡ true
      → Prepared
          (give_back wayland o logical key owns w t).0
          (give_back wayland o logical key owns w t).1
  give_back-Prepared up =
      let other = has_other_binding wayland logical key w.bindings in
      elim (Bool-cases (not owns || other || held_by_other key o t.owners)) [
        | inl skips ↦ rw skips (
          forget-Sound o w logical key t there down s (not other && owns) (ground (arith, skips)),
          tt,
        )
        | inr goes ↦ rw goes (
          s,
          record {
            owner = w;
            there = there;
            presses = rw (down_or_up up) refl;
            lifts = ground (arith, goes);
          },
        )
      ]

  plain_Prepared :
      (skip : Bool) → (not (is_empty key) && (is_down e || is_up e)) ≡ false → Prepared skip t
  plain_Prepared true h = (s, tt)
  plain_Prepared false h = (
    s,
    record { owner = w; there = there; presses = ground (arith, h); lifts = ground (arith, h) },
  )

  abbrev IsPrepared : Result InputError (Bool × InputTarget) → Type 0
  IsPrepared (ok r) = Prepared r.0 r.1
  IsPrepared (err x) = Unit

  prepare_input-IsPrepared : IsPrepared (prepare_input wayland o logical owns e w t)
  unfolding prepare_input
  prepare_input-IsPrepared = elim (Bool-cases (not (is_empty key) && is_down e)) [
    | inl presses ↦
        rw presses
          (elim (Bool-cases (not owns && leb max_held_web_rtc_inputs (length w.bindings))) [
            | inl many ↦ rw many tt
            | inr few ↦ rw few (elim (Bool-cases (has_input_capacity key t)) [
              | inl room ↦ rw room (reserve_input-Prepared (ground (arith, presses)))
              | inr full ↦ rw full tt
            ])
          ])
    | inr idle ↦ rw idle (elim (Bool-cases (not (is_empty key) && is_up e)) [
      | inl lifts ↦ rw lifts (give_back-Prepared (ground (arith, lifts)))
      | inr neither ↦
          rw neither (plain_Prepared (is_up e && not owns) (ground (arith, idle, neither)))
    ])
  ]

  pub prepare_input-Prepared :
      (skip : Bool) (u : InputTarget)
      → prepare_input wayland o logical owns e w t ≡ ok (skip, u)
      → Sound u down × TodoReady wayland u (todo_of skip o logical e)
  prepare_input-Prepared skip u h = subst IsPrepared h prepare_input-IsPrepared
