-- ===== src/Ownership/Inv/Steps.antt =====
-- Every step of the controllers of one target: internal/agentcore/remoteaccess/webrtc_input_ownership.go.
use labtether_linux.Base.{
  ℕ, ◌≡◌, refl, subst, ◌∙◌, Bool, true, false, ◌&&◌, not, arith, Bool-cases, inl, inr,
}
use labtether_linux.Base.Text.{Text, text_eq, text_eq_iff, is_empty}
use labtether_linux.Input.{InputEvent, is_down, is_up, has, held_input_key}
use labtether_linux.Input.Pressed.{up_or_down}
use labtether_linux.Ownership.{Held, InputTarget, reap, acquire_owner}
use labtether_linux.Ownership.Keys.{
  held_any, is_owner, held_any-split, has-reap, owner_of_other, held_any-acquire_owner,
  acquire_owner-AreDistinct, held_by_other-acquire_owner, owner_of-acquire_owner,
}
use labtether_linux.Ownership.System.{
  Todo, nothing, inject, Phase, free, flushing, releasing, injecting, ending, after_flush,
  pressed_too, down_after, target_after, is_bound, physical_event, Desk, Step, join, retire, sweep,
  start, fail, flush_nothing, flush, released, release_failed, injected, inject_failed, again,
  finish, Reach, here, next,
}
use labtether_linux.Ownership.Inv.{
  IsReady, TodoReady, IsApart, PhaseReady, Sound, Inv, retire_owner-PhaseReady, retire_owner-Sound,
}
use labtether_linux.Ownership.Inv.Turn.{lift_input-Sound, prepare_input-Prepared}

-- A new owner holds nothing.
module _ (o : ℕ) (t : InputTarget) (new : is_owner o t.owners ≡ false) where
  acquire_owner-IsApart : (batch : Held) → IsApart batch t → IsApart batch (acquire_owner o t)
  acquire_owner-IsApart batch a k = ground (arith, a k, held_any-acquire_owner k o t)

  acquire_owner-Sound : (down : Text → Bool) → Sound t down → Sound (acquire_owner o t) down
  unfolding acquire_owner
  acquire_owner-Sound down s = record {
    distinct = acquire_owner-AreDistinct o t new s.distinct;
    apart = acquire_owner-IsApart t.pending s.apart;
    kept = λ k. ground (arith, s.kept k, held_any-acquire_owner k o t);
  }

  acquire_owner-IsReady :
      (wayland : Bool) (p : ℕ) (e : InputEvent)
      → IsReady wayland p e t
      → IsReady wayland p e (acquire_owner o t)
  acquire_owner-IsReady wayland p e r = record {
    owner = r.owner;
    there =
        owner_of-acquire_owner o p t (owner_of_other o p r.owner t.owners new r.there) ∙ r.there;
    presses = r.presses;
    lifts = ground (arith, r.lifts, held_by_other-acquire_owner (held_input_key wayland e) o p t);
  }

  acquire_owner-TodoReady :
      (wayland : Bool) (todo : Todo)
      → TodoReady wayland t todo
      → TodoReady wayland (acquire_owner o t) todo
  acquire_owner-TodoReady wayland nothing r = tt
  acquire_owner-TodoReady wayland (inject p logical e) r = acquire_owner-IsReady wayland p e r

  acquire_owner-PhaseReady :
      (wayland : Bool) (phase : Phase)
      → PhaseReady wayland t phase
      → PhaseReady wayland (acquire_owner o t) phase
  acquire_owner-PhaseReady wayland free r = tt
  acquire_owner-PhaseReady wayland (flushing todo) r = acquire_owner-TodoReady wayland todo r
  acquire_owner-PhaseReady wayland (releasing batch v todo) r =
      (acquire_owner-IsApart batch r.0, acquire_owner-TodoReady wayland todo r.1)
  acquire_owner-PhaseReady wayland (injecting p logical e v) r = acquire_owner-IsReady wayland p e r
  acquire_owner-PhaseReady wayland (ending v) r = tt

-- What is ready does not depend on the debt.
ready_after_flush :
    (wayland : Bool) (todo : Todo) (v : ℕ) (t : InputTarget) (pending : Held)
    → TodoReady wayland t todo
    → PhaseReady wayland (record t { pending = pending }) (after_flush todo v)
ready_after_flush wayland nothing v t pending r = tt
ready_after_flush wayland (inject o logical e) v t pending r = record {
  owner = r.owner;
  there = r.there;
  presses = r.presses;
  lifts = r.lifts;
}

reap-Sound :
    (batch : Held) (t : InputTarget) (down : Text → Bool)
    → IsApart batch t
    → Sound t down
    → Sound (record t { pending = reap batch t.pending }) (λ k. not (has k batch) && down k)
reap-Sound batch t down a s = record {
  distinct = s.distinct;
  apart = λ k. ground (arith, s.apart k, has-reap k batch t.pending);
  kept = λ k. ground (arith, s.kept k, has-reap k batch t.pending);
}

module _ (wayland : Bool) (o : ℕ) (logical : Text) (e : InputEvent) (t : InputTarget)
    (down : Text → Bool) (s : Sound t down) (r : IsReady wayland o e t) where
  -- A key that is pressed is held.
  pressed_held :
      (k : Text)
      → is_down e ≡ true
      → (not (is_empty (held_input_key wayland e))
          && text_eq (held_input_key wayland e) k
          && not (held_any k t.owners))
        ≡ false
  pressed_held k d = elim (Bool-cases (text_eq (held_input_key wayland e) k)) [
    | inl same ↦
        subst
          (λ q.
            (not (is_empty (held_input_key wayland e))
              && text_eq (held_input_key wayland e) q
              && not (held_any q t.owners))
            ≡ false)
          ((text_eq_iff (held_input_key wayland e) k).0 same)
          (ground (
            arith,
            d,
            r.presses,
            held_any-split (held_input_key wayland e) o r.owner t.owners s.distinct r.there,
          ))
    | inr other ↦ ground (arith, other)
  ]

  pressed_too-Sound : is_down e ≡ true → Sound t (pressed_too (held_input_key wayland e) down)
  pressed_too-Sound d = record {
    distinct = s.distinct;
    apart = s.apart;
    kept = λ k. ground (arith, s.kept k, pressed_held k d);
  }

  injected-Sound :
      Sound (target_after wayland o logical e t) (down_after true (held_input_key wayland e) e down)
  injected-Sound = elim (Bool-cases (is_down e)) [
    | inl d ↦ rw (d, up_or_down e d) (pressed_too-Sound d)
    | inr n ↦ elim (Bool-cases (is_up e)) [
      | inl up ↦
          rw (n, up)
            (lift_input-Sound o r.owner logical (held_input_key wayland e) t r.there down s)
      | inr still ↦ rw (n, still) s
    ]
  ]

  inject_failed-Sound : Sound t (down_after false (held_input_key wayland e) e down)
  inject_failed-Sound = elim (Bool-cases (is_down e)) [
    | inl d ↦ rw d (pressed_too-Sound d)
    | inr n ↦ elim (Bool-cases (is_up e)) [ inl up ↦ rw (n, up) s | inr still ↦ rw (n, still) s ]
  ]

-- What is ready in the phase that the desk is in.
pub now :
    (wayland : Bool) (s : Desk) (p : Phase)
    → Inv wayland s
    → s.phase ≡ p
    → PhaseReady wayland s.target p
now wayland s p i h = subst (PhaseReady wayland s.target) h i.ready

pub Step-Inv : (wayland : Bool) (s t : Desk) → Inv wayland s → Step wayland s t → Inv wayland t
Step-Inv wayland s t i (join o new) = record {
  sound = acquire_owner-Sound o s.target new s.down i.sound;
  ready = acquire_owner-PhaseReady o s.target new wayland s.phase i.ready;
}
Step-Inv wayland s t i (retire o w there idle) = record {
  sound = retire_owner-Sound o w s.target there s.down i.sound;
  ready = retire_owner-PhaseReady o w s.target there i.sound.distinct wayland s.phase idle i.ready;
}
Step-Inv wayland s t i (sweep p) = record { sound = i.sound; ready = tt }
Step-Inv wayland s t i (start o w raw resolved bound skip u p there b h) =
    let r =
      prepare_input-Prepared wayland o w (held_input_key wayland raw) (is_bound bound)
        (physical_event bound raw resolved) s.target there s.down i.sound skip u h in
    record { sound = r.0; ready = r.1 }
Step-Inv wayland s t i (fail p) = record { sound = i.sound; ready = tt }
Step-Inv wayland s t i (flush_nothing todo p none_owed) = record {
  sound = i.sound;
  ready =
      ready_after_flush wayland todo s.target.version s.target s.target.pending
        (now wayland s (flushing todo) i p);
}
Step-Inv wayland s t i (flush todo p) = record {
  sound = i.sound;
  ready = (i.sound.apart, now wayland s (flushing todo) i p);
}
Step-Inv wayland s t i (released batch v todo p) =
    let r = now wayland s (releasing batch v todo) i p in
    record {
      sound = reap-Sound batch s.target s.down r.0 i.sound;
      ready = ready_after_flush wayland todo v s.target (reap batch s.target.pending) r.1;
    }
Step-Inv wayland s t i (release_failed batch v todo p) = record { sound = i.sound; ready = tt }
Step-Inv wayland s t i (injected o logical e v p) = record {
  sound =
      injected-Sound wayland o logical e s.target s.down i.sound
        (now wayland s (injecting o logical e v) i p);
  ready = tt;
}
Step-Inv wayland s t i (inject_failed o logical e v p) = record {
  sound =
      inject_failed-Sound wayland o logical e s.target s.down i.sound
        (now wayland s (injecting o logical e v) i p);
  ready = tt;
}
Step-Inv wayland s t i (again v p owed new) = record { sound = i.sound; ready = tt }
Step-Inv wayland s t i (finish v p) = record { sound = i.sound; ready = tt }

pub Reach-Inv : (wayland : Bool) (s : Desk) → Reach wayland s → Inv wayland s
Reach-Inv wayland s here = record {
  sound = record { distinct = tt; apart = λ k. refl; kept = λ k. ground arith };
  ready = tt;
}
Reach-Inv wayland t (next {s} r step) = Step-Inv wayland s t (Reach-Inv wayland s r) step
