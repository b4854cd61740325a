-- ===== src/Ownership/Tests.antt =====
-- Runs of two controllers of one target: internal/agentcore/remoteaccess/webrtc_input_ownership.go.
use labtether_linux.Base.{ℕ, not, ◌==◌, ◌≡◌, refl, true, false, ◌||◌, none, some, [], ◌∷◌}
use labtether_linux.Base.Int.{pos}
use labtether_linux.Base.Text.{Text, codes}
use labtether_linux.Input.{InputEvent, has, hold, delete_key, release_of, held_input_key}
use labtether_linux.Ownership.{
  InputOwner, owner_of, update_owner, held_by_other, has_input_capacity, distinct_keys,
  all_held_keys, has_other_binding, reserve_input, prepare_input, acquire_owner, acquired,
  retire_owner, retire_holds,
}
use labtether_linux.Ownership.Keys.{held_any, is_owner}
use labtether_linux.Ownership.System.{
  nothing, inject, free, flushing, releasing, injecting, ending, Desk, join, retire, sweep, start,
  flush_nothing, flush, injected, finish, target_after, down_after, opened, Reach, here, next,
}
use labtether_linux.Ownership.Safety.{
  release_held_by_none, lift_held_by_no_other, down_key_held_or_owed,
}
use labtether_linux.Ownership.Unlock.{Round, is_given_back, unlock, unlock-is_given_back}

abbrev mouse : Text → InputEvent
mouse kind = record {
  kind = kind;
  button = pos 1;
  code = [];
  key = [];
  key_code = pos 0;
  x = pos 3;
  y = pos 4;
  delta_y = pos 0;
  x11_keycode = 0;
}

abbrev press : InputEvent
press = mouse (codes "mousedown")

abbrev button_key : Text
button_key = held_input_key false press

-- One controller, and its press that the machine takes.
abbrev joined : Desk
joined = record opened { target = acquire_owner 0 opened.target }

abbrev reserved : Desk
reserved = record joined {
  target = reserve_input 0 button_key button_key press joined.target;
  phase = flushing (inject 0 button_key press);
}

abbrev ready : Desk
ready = record reserved { phase = injecting 0 button_key press 0 }

abbrev pressed : Desk
pressed = record {
  target = target_after false 0 button_key press ready.target;
  phase = ending 0;
  down = down_after true button_key press ready.down;
}

joined-Reach : Reach false joined
unfolding is_owner
joined-Reach = next here (join 0 refl)

reserved-Reach : Reach false reserved
unfolding labtether_linux.Ownership.System.bound_as owner_of acquire_owner prepare_input
    has_input_capacity distinct_keys all_held_keys held_input_key labtether_linux.Base.Text.text_eq
    labtether_linux.Base.Decimal.itoa labtether_linux.Base.Text.in_list
reserved-Reach = next joined-Reach (
    start 0 acquired press press none false
      (reserve_input 0 button_key button_key press joined.target) refl refl refl refl)

ready-Reach : Reach false ready
unfolding delete_key acquire_owner
ready-Reach = next reserved-Reach (flush_nothing (inject 0 button_key press) refl refl)

pressed-Reach : Reach false pressed
unfolding delete_key
pressed-Reach = next ready-Reach (injected 0 button_key press 0 refl)

abbrev settled : Desk
settled = record pressed { phase = free }

settled-Reach : Reach false settled
unfolding delete_key
settled-Reach = next pressed-Reach (finish 0 refl)

-- The controller goes, and its key is released.
abbrev gone : Desk
gone = record settled { target = retire_owner 0 settled.target; phase = flushing nothing }

abbrev releasing_key : Desk
releasing_key = record gone { phase = releasing gone.target.pending gone.target.version nothing }

abbrev holder : InputOwner
holder = record {
  held = (button_key, release_of press) ∷ [];
  bindings = (button_key, release_of press) ∷ [];
}

releasing_key-Reach : Reach false releasing_key
unfolding delete_key owner_of update_owner acquire_owner hold labtether_linux.Base.Text.text_eq
releasing_key-Reach =
    next (next (next settled-Reach (retire 0 holder refl refl)) (sweep refl)) (flush nothing refl)

-- The controller lifts its own key.
abbrev lift : InputEvent
lift = mouse (codes "mouseup")

abbrev lifting : Desk
lifting = record settled { phase = injecting 0 button_key lift 0 }

lifting-Reach : Reach false lifting
unfolding delete_key owner_of update_owner acquire_owner hold held_input_key prepare_input
    held_by_other has_other_binding labtether_linux.Ownership.System.bound_as
    labtether_linux.Base.Text.text_eq labtether_linux.Base.Decimal.itoa
lifting-Reach =
    next
      (next settled-Reach (
        start 0 holder lift lift (some (release_of press)) false settled.target refl refl refl
          refl))
      (flush_nothing (inject 0 button_key lift) refl refl)

release_held_by_none_example : held_any button_key gone.target.owners ≡ false
unfolding held_input_key labtether_linux.Base.Text.text_eq labtether_linux.Base.Decimal.itoa
    retire_owner owner_of update_owner acquire_owner hold delete_key retire_holds held_by_other
release_held_by_none_example =
    release_held_by_none false releasing_key releasing_key-Reach button_key gone.target.pending
      gone.target.version nothing refl refl

lift_held_by_no_other_example : held_by_other button_key 0 settled.target.owners ≡ false
unfolding held_input_key labtether_linux.Base.Text.text_eq labtether_linux.Base.Decimal.itoa
lift_held_by_no_other_example =
    lift_held_by_no_other false lifting lifting-Reach button_key 0 button_key lift 0 refl refl refl
      refl

down_key_held_or_owed_example :
    (has button_key settled.target.pending || held_any button_key settled.target.owners) ≡ true
unfolding held_input_key labtether_linux.Base.Text.text_eq labtether_linux.Base.Decimal.itoa
down_key_held_or_owed_example =
    down_key_held_or_owed false settled settled-Reach button_key refl refl

-- Its key is owed when the loop of `unlock` starts; the first release fails, and the second works.
abbrev rounds : ℕ → Round
rounds n = record { early = []; worked = not (n == 0); late = []; done = false }

unlock-is_given_back_example : is_given_back (unlock 3 rounds 0 false 0 [] gone.target) ≡ true
unlock-is_given_back_example = unlock-is_given_back rounds 1 0 false 0 [] gone.target refl
