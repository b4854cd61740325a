-- ===== src/Ownership.antt =====
-- The inputs that controllers share: internal/agentcore/remoteaccess/webrtc_input_ownership.go. Each
-- definition here is one critical section of a target's mutex; `System` puts them in the orders that
-- the gate allows.
pub mod Keys
pub mod Retire
pub mod System
pub mod Inv
pub mod Safety
pub mod Unlock
pub mod Registry
mod Tests
use labtether_linux.Base.{
  ℕ, ◌+◌, ◌*◌, ◌%◌, ◌^◌, Bool, true, false, ◌&&◌, ◌||◌, not, Option, none, some, List, [], ◌∷◌,
  ◌++◌, if◌then◌else◌, ltb, leb, ◌==◌, length, map,
}
use labtether_linux.Base.Result.{Result, ok, err}
use labtether_linux.Base.Text.{Text, text_eq, is_empty, in_list}
use labtether_linux.Input.{
  InputEvent, is_down, is_up, has, hold, delete_key, held_input_key, release_of,
  max_held_web_rtc_inputs,
}

abbrev pub Held : Type 0
Held = List (Text × InputEvent)

-- What `t.owners` keeps of a `webRTCInputOwner`, and its bindings.
pub record InputOwner : Type 0 where
  pub held : Held
  pub bindings : Held

-- `webRTCInputTarget`; an owner is named by a handle.
pub record InputTarget : Type 0 where
  pub owners : List (ℕ × InputOwner)
  pub pending : Held
  pub version : ℕ
  pub leases : ℕ

pub data InputError : Type 0 where
  too_many_held too_many_awaiting : InputError

abbrev pub max_web_rtc_sessions : ℕ
max_web_rtc_sessions = 10

pub owner_of : ℕ → List (ℕ × InputOwner) → Option InputOwner
owner_of o [] = none
owner_of o ((i, w) ∷ owners) = if i == o then some w else owner_of o owners

pub update_owner : ℕ → (InputOwner → InputOwner) → List (ℕ × InputOwner) → List (ℕ × InputOwner)
update_owner o f [] = []
update_owner o f ((i, w) ∷ owners) =
    if i == o then (i, f w) ∷ owners else (i, w) ∷ update_owner o f owners

-- `delete(t.owners, o)`
pub remove_owner : ℕ → List (ℕ × InputOwner) → List (ℕ × InputOwner)
remove_owner o [] = []
remove_owner o ((i, w) ∷ owners) = if i == o then owners else (i, w) ∷ remove_owner o owners

-- `heldByOther`
pub held_by_other : Text → ℕ → List (ℕ × InputOwner) → Bool
held_by_other key o [] = false
held_by_other key o ((i, w) ∷ owners) =
    (not (i == o) && has key w.held) || held_by_other key o owners

abbrev pub keys_of : Held → List Text
keys_of = map (λ h. h.0)

pub all_held_keys : List (ℕ × InputOwner) → List Text
all_held_keys [] = []
all_held_keys ((i, w) ∷ owners) = keys_of w.held ++ all_held_keys owners

-- The keys of a set that is built from a list.
pub distinct_keys : List Text → List Text
distinct_keys [] = []
distinct_keys (k ∷ ks) = let rest = distinct_keys ks in if in_list k ks then rest else k ∷ rest

abbrev pub physical_keys : InputTarget → List Text
physical_keys t = keys_of t.pending ++ all_held_keys t.owners

-- `hasInputCapacity`
pub has_input_capacity : Text → InputTarget → Bool
has_input_capacity key t =
    in_list key (physical_keys t)
    || ltb (length (distinct_keys (physical_keys t)))
        (max_held_web_rtc_inputs * max_web_rtc_sessions)

-- `hasOtherBinding`
pub has_other_binding : Bool → Text → Text → Held → Bool
has_other_binding wayland logical physical [] = false
has_other_binding wayland logical physical ((j, e) ∷ bindings) =
    (not (text_eq j logical) && text_eq (held_input_key wayland e) physical)
    || has_other_binding wayland logical physical bindings

-- A down event is reserved before it is injected.
abbrev pub reserve_input : ℕ → Text → Text → InputEvent → InputTarget → InputTarget
reserve_input o logical key e t = record t {
  owners =
      update_owner o
        (λ w. record {
          held = hold key (release_of e) w.held;
          bindings = hold logical (release_of e) w.bindings;
        })
        t.owners;
  pending = delete_key key t.pending;
}

-- The owner forgets a logical input, and with `whole` the physical one too.
abbrev pub forget : Text → Text → Bool → InputOwner → InputOwner
forget logical key whole w = record {
  held = if whole then delete_key key w.held else w.held;
  bindings = delete_key logical w.bindings;
}

-- What the first critical section of `inject` makes of an up event: whether the injection is skipped, and the
-- target.
abbrev pub give_back : Bool → ℕ → Text → Text → Bool → InputOwner → InputTarget → Bool × InputTarget
give_back wayland o logical key owns w t =
    let other = has_other_binding wayland logical key w.bindings in
    if not owns || other || held_by_other key o t.owners
    then (
      true,
      record t { owners = update_owner o (forget logical key (not other && owns)) t.owners },
    )
    else (false, t)

-- The first critical section of `inject` for an event that has its physical code; `owns` says whether the
-- logical input is bound.
pub prepare_input :
    Bool
    → ℕ
    → Text
    → Bool
    → InputEvent
    → InputOwner
    → InputTarget
    → Result InputError (Bool × InputTarget)
prepare_input wayland o logical owns e w t =
    let key = held_input_key wayland e in
    if not (is_empty key) && is_down e
    then (if not owns && leb max_held_web_rtc_inputs (length w.bindings)
        then err too_many_held
        else if not (has_input_capacity key t)
        then err too_many_awaiting
        else ok (false, reserve_input o logical key e t))
    else if not (is_empty key) && is_up e
    then ok (give_back wayland o logical key owns w t)
    else ok (is_up e && not owns, t)

-- The last critical section of `inject`, after an up event that succeeded.
pub lift_input : ℕ → Text → Text → InputTarget → InputTarget
lift_input o logical key t = record t { owners = update_owner o (forget logical key true) t.owners }

abbrev pub next_version : ℕ → ℕ
next_version v = (v + 1) % 2 ^ 64

-- The loop of `retire` over the holds of the owner.
pub retire_holds : ℕ → Held → InputTarget → InputTarget
retire_holds o [] t = t
retire_holds o ((key, e) ∷ held) t = retire_holds o held (
    if held_by_other key o t.owners
    then t
    else record t { pending = hold key e t.pending; version = next_version t.version })

abbrev pub retire_found : ℕ → Option InputOwner → InputTarget → InputTarget
retire_found o none t = t
retire_found o (some w) t =
    let t' = retire_holds o w.held t in record t' { owners = remove_owner o t'.owners }

-- The critical section of `retire`.
pub retire_owner : ℕ → InputTarget → InputTarget
retire_owner o t = retire_found o (owner_of o t.owners) t

-- The last critical section of `flush`: the keys of a batch that was released go.
pub reap : Held → Held → Held
reap [] pending = pending
reap ((key, e) ∷ batch) pending = reap batch (delete_key key pending)

abbrev pub acquired : InputOwner
acquired = record { held = []; bindings = [] }

-- `acquire` of a target that is there.
pub acquire_owner : ℕ → InputTarget → InputTarget
acquire_owner o t = record t { owners = (o, acquired) ∷ t.owners; leases = t.leases + 1 }
