-- ===== src/Ownership/System.antt =====
-- The controllers of one target in any order: internal/agentcore/remoteaccess/webrtc_input_ownership.go.
-- The gate is held by one turn at a time; owners may come and retire while it is.
use labtether_linux.Base.{
  ℕ, ◌≡◌, ◌≢◌, Bool, true, false, ◌&&◌, ◌||◌, not, Option, none, some, [], ◌∷◌, if◌then◌else◌, ◌==◌,
}
use labtether_linux.Base.Result.{ok}
use labtether_linux.Base.Text.{Text, text_eq, is_empty}
use labtether_linux.Input.{InputEvent, is_down, is_up, has, held_input_key}
use labtether_linux.Ownership.{
  Held, InputOwner, InputTarget, owner_of, prepare_input, lift_input, retire_owner, reap,
  acquire_owner,
}
use labtether_linux.Ownership.Keys.{is_owner}

-- What a turn does after its flush: nothing, or the injection of an owner's event under its logical key.
pub data Todo : Type 0 where
  nothing : Todo
  inject : ℕ → Text → InputEvent → Todo

-- Where the holder of the gate stands: nobody has it; before a flush; in a release, with the batch and the
-- version that its flush read; in an injection; at the end of the turn, with the version of the last flush.
pub data Phase : Type 0 where
  free : Phase
  flushing : Todo → Phase
  releasing : Held → ℕ → Todo → Phase
  injecting : ℕ → Text → InputEvent → ℕ → Phase
  ending : ℕ → Phase

-- The target, its gate, and the keys that may be down on the machine: those whose press was tried and that no
-- release that worked has lifted since.
pub record Desk : Type 0 where
  pub target : InputTarget
  pub phase : Phase
  pub down : Text → Bool

abbrev pub todo_of : Bool → ℕ → Text → InputEvent → Todo
todo_of true o logical e = nothing
todo_of false o logical e = inject o logical e

abbrev pub after_flush : Todo → ℕ → Phase
after_flush nothing v = ending v
after_flush (inject o logical e) v = injecting o logical e v

abbrev pub pressed_too : Text → (Text → Bool) → Text → Bool
pressed_too key down k = (text_eq key k && not (is_empty key)) || down k

abbrev pub lifted : Text → (Text → Bool) → Text → Bool
lifted key down k = not (text_eq key k) && down k

unfoldable pub bound_as : Text → Held → Option InputEvent
bound_as k [] = none
bound_as k ((j, e) ∷ bindings) = if text_eq j k then some e else bound_as k bindings

abbrev pub is_bound : Option InputEvent → Bool
is_bound none = false
is_bound (some e) = true

-- The event that a turn injects: with the physical code of its binding, if it has one, and otherwise as the
-- resolver gives it, which an up event does not ask.
abbrev pub physical_event : Option InputEvent → InputEvent → InputEvent → InputEvent
physical_event (some b) raw resolved =
    if is_down raw || is_up raw then record raw { x11_keycode = b.x11_keycode } else resolved
physical_event none raw resolved = if is_up raw then raw else resolved

abbrev pub is_todo_of : ℕ → Todo → Bool
is_todo_of o nothing = false
is_todo_of o (inject p logical e) = p == o

-- The reader of this owner is in its turn.
abbrev pub is_turn_of : ℕ → Phase → Bool
is_turn_of o free = false
is_turn_of o (flushing todo) = is_todo_of o todo
is_turn_of o (releasing batch v todo) = is_todo_of o todo
is_turn_of o (injecting p logical e v) = p == o
is_turn_of o (ending v) = false

-- What the machine makes of an injection that worked, and of one that may have.
abbrev pub down_after : Bool → Text → InputEvent → (Text → Bool) → Text → Bool
down_after worked key e down =
    if is_down e then pressed_too key down else if is_up e && worked then lifted key down else down

abbrev pub target_after : Bool → ℕ → Text → InputEvent → InputTarget → InputTarget
target_after wayland o logical e t =
    if is_up e then lift_input o logical (held_input_key wayland e) t else t

-- One step. Which inputs come, how calls to the machine end, and when contexts are cancelled is free.
pub data Step (wayland : Bool) (s : Desk) : Desk → Type 0 where
  -- `acquire`
  join :
      (o : ℕ)
      → is_owner o s.target.owners ≡ false
      → Step wayland s (record s { target = acquire_owner o s.target })
  -- The critical section of `retire`: a reader retires when its last turn is over.
  retire :
      (o : ℕ) (w : InputOwner)
      → owner_of o s.target.owners ≡ some w
      → is_turn_of o s.phase ≡ false
      → Step wayland s (record s { target = retire_owner o s.target })
  -- `retire` takes the gate for its flush.
  sweep : s.phase ≡ free → Step wayland s (record s { phase = flushing nothing })
  -- `inject` takes the gate and prepares its event.
  start :
      (o : ℕ) (w : InputOwner) (raw resolved : InputEvent) (bound : Option InputEvent) (skip : Bool)
      (t : InputTarget)
      → s.phase ≡ free
      → owner_of o s.target.owners ≡ some w
      → bound_as (held_input_key wayland raw) w.bindings ≡ bound
      → prepare_input wayland o
          (held_input_key wayland raw)
          (is_bound bound)
          (physical_event bound raw resolved)
          w
          s.target
        ≡ ok (skip, t)
      → Step wayland s (record s {
        target = t;
        phase =
            flushing
              (todo_of skip o (held_input_key wayland raw) (physical_event bound raw resolved));
      })
  -- `inject` takes the gate and fails before its flush.
  fail : s.phase ≡ free → Step wayland s (record s { phase = ending 0 })
  -- `flush` with nothing to release.
  flush_nothing :
      (todo : Todo)
      → s.phase ≡ flushing todo
      → s.target.pending ≡ []
      → Step wayland s (record s { phase = after_flush todo s.target.version })
  -- `flush` takes its batch.
  flush :
      (todo : Todo)
      → s.phase ≡ flushing todo
      → Step wayland s (record s { phase = releasing s.target.pending s.target.version todo })
  -- The batch was released.
  released :
      (batch : Held) (v : ℕ) (todo : Todo)
      → s.phase ≡ releasing batch v todo
      → Step wayland s (record {
        target = record s.target { pending = reap batch s.target.pending };
        phase = after_flush todo v;
        down = λ k. not (has k batch) && s.down k;
      })
  release_failed :
      (batch : Held) (v : ℕ) (todo : Todo)
      → s.phase ≡ releasing batch v todo
      → Step wayland s (record s { phase = ending v })
  injected :
      (o : ℕ) (logical : Text) (e : InputEvent) (v : ℕ)
      → s.phase ≡ injecting o logical e v
      → Step wayland s (record {
        target = target_after wayland o logical e s.target;
        phase = ending v;
        down = down_after true (held_input_key wayland e) e s.down;
      })
  inject_failed :
      (o : ℕ) (logical : Text) (e : InputEvent) (v : ℕ)
      → s.phase ≡ injecting o logical e v
      → Step wayland s (record s {
        phase = ending v;
        down = down_after false (held_input_key wayland e) e s.down;
      })
  -- The loop of `unlock` flushes once more: there is debt that the last flush has not tried.
  again :
      (v : ℕ)
      → s.phase ≡ ending v
      → s.target.pending ≢ []
      → s.target.version ≢ v
      → Step wayland s (record s { phase = flushing nothing })
  -- The loop of `unlock` gives the gate back: no debt, all of it tried, or its time is up.
  finish : (v : ℕ) → s.phase ≡ ending v → Step wayland s (record s { phase = free })

abbrev pub opened : Desk
opened = record {
  target = record { owners = []; pending = []; version = 0; leases = 0 };
  phase = free;
  down = λ k. false;
}

pub data Reach (wayland : Bool) : Desk → Type 0 where
  here : Reach wayland opened
  next : {s t : Desk} → Reach wayland s → Step wayland s t → Reach wayland t
