-- ===== src/Input/Tests.antt =====
-- Runs of the reader of internal/agentcore/remoteaccess/webrtc_input_lifecycle.go.
use labtether_linux.Base.{◌≡◌, refl, true, false, List, [], ◌∷◌, map, arith}
use labtether_linux.Base.Int.{pos}
use labtether_linux.Base.Text.{Text, codes}
use labtether_linux.Input.{
  InputEvent, Arrival, arrived, run_web_rtc_input_events_with_release, run_input_events, turn,
  with_room, reserve_hold, inject_event, hold, delete_key, held_input_key, releases_of,
}
use labtether_linux.Input.Keys.{SameInput, held_input_key-SameInput}
use labtether_linux.Input.Pressed.{IsSettled, run_web_rtc_input_events_with_release-IsSettled}

abbrev mouse : Text → InputEvent
mouse kind = record {
  kind = kind;
  button = pos 1;
  code = [];
  key = [];
  key_code = pos 0;
  x = pos 3;
  y = pos 4;
  delta_y = pos 0;
  x11_keycode = 0;
}

-- A press whose injection works, and a second one that fails.
abbrev two_presses : List Arrival
two_presses =
    arrived (mouse (codes " MouseDown")) false true
    ∷ arrived (mouse (codes "mousedown")) false false
    ∷ arrived (mouse (codes "mouseup")) false true
    ∷ []

runs_release :
    map (λ e. e.kind) (releases_of (run_web_rtc_input_events_with_release false two_presses).0.held)
    ≡ codes "mouseup" ∷ []
unfolding run_web_rtc_input_events_with_release run_input_events turn with_room reserve_hold
    inject_event hold delete_key held_input_key labtether_linux.Base.Text.trim_space
    labtether_linux.Base.Text.to_lower labtether_linux.Base.Text.text_eq
    labtether_linux.Base.Decimal.itoa
runs_release = refl

run_web_rtc_input_events_with_release-IsSettled_example :
    IsSettled false (run_web_rtc_input_events_with_release false two_presses).0
run_web_rtc_input_events_with_release-IsSettled_example =
    run_web_rtc_input_events_with_release-IsSettled false two_presses

-- The key A, pressed and lifted, and an event of that key with a code that no table has.
abbrev key_event : Text → Text → InputEvent
key_event kind code = record (mouse kind) { code = code; key = codes "a"; key_code = pos 65 }

key_name :
    held_input_key true (key_event (codes "keydown") (codes "KeyA"))
    ≡ held_input_key true (key_event (codes "keyup") (codes " KeyA "))
unfolding held_input_key labtether_linux.Keymap.dom_code_to_linux_input_code
    labtether_linux.Keymap.lookup_key labtether_linux.Base.Text.trim_space
    labtether_linux.Base.Text.text_eq labtether_linux.Base.Decimal.itoa
key_name = refl

held_input_key-SameInput_example :
    SameInput true
      (key_event (codes "keydown") (codes "KeyA"))
      (key_event (codes "keyup") (codes " KeyA "))
unfolding held_input_key labtether_linux.Keymap.dom_code_to_linux_input_code
    labtether_linux.Keymap.lookup_key labtether_linux.Base.Text.trim_space
    labtether_linux.Base.Text.text_eq labtether_linux.Base.Decimal.itoa
held_input_key-SameInput_example =
    held_input_key-SameInput true (key_event (codes "keydown") (codes "KeyA"))
      (key_event (codes "keyup") (codes " KeyA ")) (omega arith, omega arith)
      (omega arith, omega arith) (λ e. cc) key_name
