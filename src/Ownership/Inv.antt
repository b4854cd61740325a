-- ===== src/Ownership/Inv.antt =====
-- What holds of the controllers of one target in any order:
-- internal/agentcore/remoteaccess/webrtc_input_ownership.go.
pub mod Turn
pub mod Steps
use labtether_linux.Base.{
  ℕ, ◌≡◌, ap, sym, subst, ◌∙◌, Bool, false, ◌&&◌, ◌||◌, not, some, ◌==◌, arith,
}
use labtether_linux.Base.Text.{Text, is_empty}
use labtether_linux.Input.{InputEvent, is_down, is_up, has, held_input_key}
use labtether_linux.Ownership.{Held, InputOwner, InputTarget, owner_of, held_by_other, retire_owner}
use labtether_linux.Ownership.Keys.{
  held_any, AreDistinct, held_any-remove_owner, held_any-split, remove_owner-AreDistinct,
  held_by_other-remove_owner, owner_of-remove_owner,
}
use labtether_linux.Ownership.Retire.{Retired, retire_owner-Retired}
use labtether_linux.Ownership.System.{
  Todo, nothing, inject, Phase, free, flushing, releasing, injecting, ending, is_todo_of,
  is_turn_of, Desk,
}

-- An event that is about to be injected: its owner is there, a key that it presses is held by it, and one
-- that it lifts is held by no other.
pub record IsReady (wayland : Bool) (o : ℕ) (e : InputEvent) (t : InputTarget) : Type 0 where
  pub owner : InputOwner
  pub there : owner_of o t.owners ≡ some owner
  pub presses :
      (is_down e
        && not (is_empty (held_input_key wayland e))
        && not (has (held_input_key wayland e) owner.held))
      ≡ false
  pub lifts :
      (is_up e
        && not (is_empty (held_input_key wayland e))
        && held_by_other (held_input_key wayland e) o t.owners)
      ≡ false

abbrev pub TodoReady : Bool → InputTarget → Todo → Type 0
TodoReady wayland t nothing = Unit
TodoReady wayland t (inject o logical e) = IsReady wayland o e t

-- No key of the batch is held by anybody.
abbrev pub IsApart : Held → InputTarget → Type 0
IsApart batch t = (k : Text) → (has k batch && held_any k t.owners) ≡ false

abbrev pub PhaseReady : Bool → InputTarget → Phase → Type 0
PhaseReady wayland t free = Unit
PhaseReady wayland t (flushing todo) = TodoReady wayland t todo
PhaseReady wayland t (releasing batch v todo) = IsApart batch t × TodoReady wayland t todo
PhaseReady wayland t (injecting o logical e v) = IsReady wayland o e t
PhaseReady wayland t (ending v) = Unit

-- No two owners have one handle; no debt is held; and a key that may be down is held or owed.
pub record Sound (t : InputTarget) (down : Text → Bool) : Type 0 where
  pub distinct : AreDistinct t.owners
  pub apart : IsApart t.pending t
  pub kept :
      (k : Text)
      → (not (is_empty k) && down k && not (has k t.pending || held_any k t.owners)) ≡ false

pub record Inv (wayland : Bool) (s : Desk) : Type 0 where
  pub sound : Sound s.target s.down
  pub ready : PhaseReady wayland s.target s.phase

-- Retirement of another owner, and the arrival of a new one, keep what is ready and what is sound.
module _ (o : ℕ) (w : InputOwner) (t : InputTarget) (there : owner_of o t.owners ≡ some w) where
  retire_owner-IsReady :
      (wayland : Bool) (p : ℕ) (e : InputEvent)
      → (p == o) ≡ false
      → IsReady wayland p e t
      → IsReady wayland p e (retire_owner o t)
  retire_owner-IsReady wayland p e other r =
      let m = retire_owner-Retired o w t there in
      record {
        owner = r.owner;
        there = ap (owner_of p) m.owners ∙ owner_of-remove_owner p o t.owners other ∙ r.there;
        presses = r.presses;
        lifts = ground (
          arith,
          r.lifts,
          ap (held_by_other (held_input_key wayland e) p) m.owners,
          held_by_other-remove_owner (held_input_key wayland e) p o t.owners,
        );
      }

  retire_owner-TodoReady :
      (wayland : Bool) (todo : Todo)
      → is_todo_of o todo ≡ false
      → TodoReady wayland t todo
      → TodoReady wayland (retire_owner o t) todo
  retire_owner-TodoReady wayland nothing n r = tt
  retire_owner-TodoReady wayland (inject p logical e) n r = retire_owner-IsReady wayland p e n r

  module _ (distinct : AreDistinct t.owners) where
    held_any-retire_owner :
        (k : Text) → held_any k (retire_owner o t).owners ≡ held_by_other k o t.owners
    held_any-retire_owner k =
        ap (held_any k) (retire_owner-Retired o w t there).owners
        ∙ held_any-remove_owner k o t.owners distinct

    retire_owner-IsApart : (batch : Held) → IsApart batch t → IsApart batch (retire_owner o t)
    retire_owner-IsApart batch a k =
        ground (arith, a k, held_any-retire_owner k, held_any-split k o w t.owners distinct there)

    pub retire_owner-PhaseReady :
        (wayland : Bool) (phase : Phase)
        → is_turn_of o phase ≡ false
        → PhaseReady wayland t phase
        → PhaseReady wayland (retire_owner o t) phase
    retire_owner-PhaseReady wayland free n r = tt
    retire_owner-PhaseReady wayland (flushing todo) n r = retire_owner-TodoReady wayland todo n r
    retire_owner-PhaseReady wayland (releasing batch v todo) n r =
        (retire_owner-IsApart batch r.0, retire_owner-TodoReady wayland todo n r.1)
    retire_owner-PhaseReady wayland (injecting p logical e v) n r =
        retire_owner-IsReady wayland p e n r
    retire_owner-PhaseReady wayland (ending v) n r = tt

  pub retire_owner-Sound : (down : Text → Bool) → Sound t down → Sound (retire_owner o t) down
  retire_owner-Sound down s = record {
    distinct = subst AreDistinct (sym m.owners) (remove_owner-AreDistinct o t.owners s.distinct);
    apart = λ k. ground (
      arith,
      s.apart k,
      m.pending k,
      held_any-retire_owner s.distinct k,
      held_any-split k o w t.owners s.distinct there,
    );
    kept = λ k. ground (
      arith,
      s.kept k,
      m.pending k,
      held_any-retire_owner s.distinct k,
      held_any-split k o w t.owners s.distinct there,
    );
  }
    where
      m : Retired o w t (retire_owner o t)
      m = retire_owner-Retired o w t there
