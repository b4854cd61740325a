-- ===== src/Input.antt =====
-- The reader of a session's remote input: internal/agentcore/remoteaccess/webrtc_input_lifecycle.go, with
-- `X11KeyArgument` of webrtc_input.go.
pub mod Held
pub mod Pressed
pub mod Keys
mod Tests
use labtether_linux.Base.{
  ℕ, zero, suc, ◌+◌, ◌/◌, ◌%◌, Bool, true, false, ◌&&◌, ◌||◌, not, Option, none, some, List, [],
  ◌∷◌, ◌++◌, if◌then◌else◌, ltb, leb, ◌==◌, length, any,
}
use labtether_linux.Base.Int.{ℤ, pos, negsuc}
use labtether_linux.Base.Text.{Text, codes, text_eq, trim_space, to_lower, is_empty}
use labtether_linux.Base.Decimal.{itoa}
use labtether_linux.Keymap.{
  dom_code_to_linux_input_code, dom_code_to_x11_keysym, dom_key_to_x11_keysym,
}

-- `WebRTCInputEvent`
pub record InputEvent : Type 0 where
  pub kind : Text
  pub button : ℤ
  pub code : Text
  pub key : Text
  pub key_code : ℤ
  pub x : ℤ
  pub y : ℤ
  pub delta_y : ℤ
  pub x11_keycode : ℕ

abbrev pub max_held_web_rtc_inputs : ℕ
max_held_web_rtc_inputs = 256

abbrev pub is_kind : Text → InputEvent → Bool
is_kind t e = text_eq e.kind t

abbrev pub is_down : InputEvent → Bool
is_down e = is_kind (codes "keydown") e || is_kind (codes "mousedown") e

abbrev pub is_up : InputEvent → Bool
is_up e = is_kind (codes "keyup") e || is_kind (codes "mouseup") e

abbrev pub hex_digit : ℕ → ℕ
hex_digit d = if ltb d 10 then 48 + d else 87 + d

-- The lower-case hexadecimal digits of a number of at most one digit more than the first argument says.
pub hex_digits : ℕ → ℕ → Text → Text
hex_digits zero n s = hex_digit (n % 16) ∷ s
hex_digits (suc k) n s =
    let more = hex_digits k (n / 16) (hex_digit (n % 16) ∷ s) in
    if ltb n 16 then hex_digit n ∷ s else more

abbrev pub key_code_argument : ℤ → Option Text
key_code_argument (negsuc n) = none
key_code_argument (pos n) = if ltb 0 n then some (codes "0x" ++ hex_digits 15 n []) else none

-- `X11KeyArgument`
pub x11_key_argument : InputEvent → Option Text
x11_key_argument e = elim (dom_code_to_x11_keysym (trim_space e.code)) [
  | some keysym ↦ some keysym
  | none ↦ elim (dom_key_to_x11_keysym (trim_space e.key)) [
    | some keysym ↦ some keysym
    | none ↦ key_code_argument e.key_code
  ]
]

abbrev pub key_named : Option Text → Text
key_named none = []
key_named (some k) = codes "key:" ++ k

abbrev pub code_named : Option ℕ → Text
code_named none = []
code_named (some n) = codes "key:" ++ itoa (pos n)

-- `webRTCHeldInputKey`; the first argument says whether the session is one of Wayland.
unfoldable pub held_input_key : Bool → InputEvent → Text
held_input_key wayland e =
    if is_kind (codes "mousedown") e || is_kind (codes "mouseup") e
    then codes "button:" ++ itoa e.button
    else if not (is_kind (codes "keydown") e || is_kind (codes "keyup") e)
    then []
    else if not (e.x11_keycode == 0)
    then codes "x11-keycode:" ++ itoa (pos e.x11_keycode)
    else if wayland
    then code_named (dom_code_to_linux_input_code (trim_space e.code))
    else key_named (x11_key_argument e)

-- What the loop meets: the end of its context, the end of its channel, or an event, with whether the context
-- has ended since, and whether its injection succeeds.
pub data Arrival : Type 0 where
  context_done channel_closed : Arrival
  arrived : InputEvent → Bool → Bool → Arrival

pub data Exit : Type 0 where
  ended too_many_held injection_failed : Exit

-- `held`, as a list, and the injections that were tried, the last one first, with their outcomes.
pub record Reader : Type 0 where
  pub held : List (Text × InputEvent)
  pub tried : List (InputEvent × Bool)

abbrev pub has : Text → List (Text × InputEvent) → Bool
has k = any (λ h. text_eq h.0 k)

unfoldable pub delete_key : Text → List (Text × InputEvent) → List (Text × InputEvent)
delete_key k [] = []
delete_key k ((j, e) ∷ held) = if text_eq j k then delete_key k held else (j, e) ∷ delete_key k held

-- `held[key] = event`
unfoldable pub hold : Text → InputEvent → List (Text × InputEvent) → List (Text × InputEvent)
hold k e [] = (k, e) ∷ []
hold k e ((j, d) ∷ held) = if text_eq j k then (k, e) ∷ held else (j, d) ∷ hold k e held

-- The event that releases what this one presses.
abbrev pub release_of : InputEvent → InputEvent
release_of e =
    if is_kind (codes "keydown") e
    then record e { kind = codes "keyup" }
    else record e { kind = codes "mouseup" }

-- Hold what an event is about to press, or none if there is no room.
pub reserve_hold : Text → InputEvent → List (Text × InputEvent) → Option (List (Text × InputEvent))
reserve_hold key e held =
    if not (is_empty key) && is_down e
    then (if not (has key held) && leb max_held_web_rtc_inputs (length held)
        then none
        else some (hold key (release_of e) held))
    else some held

-- The injection and what follows it.
pub inject_event :
    Text
    → InputEvent
    → Bool
    → List (InputEvent × Bool)
    → List (Text × InputEvent)
    → Reader × Option Exit
inject_event key e false tried held =
    (record { held = held; tried = (e, false) ∷ tried }, some injection_failed)
inject_event key e true tried held = (
  record { held = if is_up e then delete_key key held else held; tried = (e, true) ∷ tried },
  none,
)

pub with_room :
    Text → InputEvent → Bool → Reader → Option (List (Text × InputEvent)) → Reader × Option Exit
with_room key e injected r none = (r, some too_many_held)
with_room key e injected r (some held) = inject_event key e injected r.tried held

-- `evt.Type` is lower case and trimmed from here on.
abbrev pub plain_kind : InputEvent → InputEvent
plain_kind e = record e { kind = trim_space (to_lower e.kind) }

-- One turn of the loop: the reader after it, and why the loop ends, if it does.
pub turn : Bool → Reader → Arrival → Reader × Option Exit
turn wayland r context_done = (r, some ended)
turn wayland r channel_closed = (r, some ended)
turn wayland r (arrived raw gone injected) =
    let e = plain_kind raw in
    let key = held_input_key wayland e in
    if gone then (r, some ended) else with_room key e injected r (reserve_hold key e r.held)

-- The loop over what it meets; it still waits when there is nothing left.
pub run_input_events : Bool → List Arrival → Reader → Reader × Option Exit
run_input_events wayland [] r = (r, none)
run_input_events wayland (a ∷ as_) r =
    let (r', exit) = turn wayland r a in
    elim exit [ none ↦ run_input_events wayland as_ r' | some x ↦ (r', some x) ]

abbrev pub releases_of : List (Text × InputEvent) → List InputEvent
releases_of [] = []
releases_of ((k, e) ∷ held) = e ∷ releases_of held

-- `runWebRTCInputEventsWithRelease`: how it ended, what it tried to inject, and what it releases at its end.
pub run_web_rtc_input_events_with_release : Bool → List Arrival → Reader × Option Exit
run_web_rtc_input_events_with_release wayland arrivals =
    run_input_events wayland arrivals (record { held = []; tried = [] })
