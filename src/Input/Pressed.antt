-- ===== src/Input/Pressed.antt =====
-- The keys and buttons that a reader of internal/agentcore/remoteaccess/webrtc_input_lifecycle.go leaves pressed.
use labtether_linux.Base.{
  ◌≤◌, ◌≡◌, refl, ap, subst, ◌∙◌, Bool, true, false, ◌&&◌, ◌||◌, not, Option, none, some, List, [],
  ◌∷◌, length, any, All, arith, Bool-cases, inl, inr, if◌then◌else◌, leb,
}
use labtether_linux.Base.Text.{Text, codes, text_eq, text_eq_iff, is_empty}
use labtether_linux.Input.{
  InputEvent, Arrival, context_done, channel_closed, arrived, Exit, Reader, is_down, is_up, is_kind,
  held_input_key, x11_key_argument, has, release_of, reserve_hold, inject_event, with_room,
  plain_kind, turn, run_input_events, releases_of, run_web_rtc_input_events_with_release,
  max_held_web_rtc_inputs,
}
use labtether_linux.Input.Held.{
  has-hold, has-delete_key, length-hold, length-hold_again, length-delete_key, All-hold,
  All-delete_key,
}

-- Whether a key may be down after these injections, the last one first: the last event of that key that
-- counts is a down, whose injection may have worked even if it failed, or an up whose injection worked.
abbrev pub pressed : Bool → Text → List (InputEvent × Bool) → Bool
pressed wayland k [] = false
pressed wayland k ((e, worked) ∷ older) =
    if text_eq (held_input_key wayland e) k && is_down e
    then true
    else if text_eq (held_input_key wayland e) k && is_up e && worked
    then false
    else pressed wayland k older

-- A held entry is an up event of its own key.
abbrev IsRelease : Bool → Text × InputEvent → Type 0
IsRelease wayland h = (is_up h.1 ≡ true) × (held_input_key wayland h.1 ≡ h.0)

record Tracks (wayland : Bool) (r : Reader) : Type 0 where
  few : length r.held ≤ max_held_web_rtc_inputs
  own : All (IsRelease wayland) r.held
  exact : (k : Text) → is_empty k ≡ false → has k r.held ≡ pressed wayland k r.tried

-- An event of one kind is of no other.
other_kind :
    (e : InputEvent) (t u : Text) → is_kind t e ≡ true → text_eq t u ≡ false → is_kind u e ≡ false
other_kind e t u h d = ap (λ k. text_eq k u) ((text_eq_iff e.kind t).0 h) ∙ d

pub up_or_down : (e : InputEvent) → is_down e ≡ true → is_up e ≡ false
unfolding text_eq
up_or_down e d = elim (Bool-cases (is_kind (codes "keydown") e)) [
  | inl k ↦
      simp
        (
          other_kind e (codes "keydown") (codes "keyup") k refl,
          other_kind e (codes "keydown") (codes "mouseup") k refl,
        )
        refl
  | inr n ↦
      let m : is_kind (codes "mousedown") e ≡ true = ground (arith, n, d) in
      simp
        (
          other_kind e (codes "mousedown") (codes "keyup") m refl,
          other_kind e (codes "mousedown") (codes "mouseup") m refl,
        )
        refl
]

release_of-IsRelease :
    (wayland : Bool) (e : InputEvent)
    → is_down e ≡ true
    → IsRelease wayland (held_input_key wayland e, release_of e)
unfolding held_input_key text_eq x11_key_argument
release_of-IsRelease wayland e d = elim (Bool-cases (is_kind (codes "keydown") e)) [
  | inl k ↦
      simp
        (
          k,
          other_kind e (codes "keydown") (codes "mousedown") k refl,
          other_kind e (codes "keydown") (codes "mouseup") k refl,
        )
        (refl, refl)
  | inr n ↦
      let m : is_kind (codes "mousedown") e ≡ true = ground (arith, n, d) in
      simp (n, m) (refl, refl)
]

-- Holding what an event is about to press keeps the bound and the entries, and adds exactly its key.
record Reserved (wayland : Bool) (e : InputEvent) (held next : List (Text × InputEvent))
    : Type 0 where
  few : length next ≤ max_held_web_rtc_inputs
  own : All (IsRelease wayland) next
  exact :
      (k : Text)
      → is_empty k ≡ false
      → has k next ≡ ((text_eq (held_input_key wayland e) k && is_down e) || has k held)

reserve_hold-Reserved :
    (wayland : Bool) (e : InputEvent) (held next : List (Text × InputEvent))
    → length held ≤ max_held_web_rtc_inputs
    → All (IsRelease wayland) held
    → reserve_hold (held_input_key wayland e) e held ≡ some next
    → Reserved wayland e held next
unfolding reserve_hold
reserve_hold-Reserved wayland e held next f o h =
    elim (Bool-cases (not (is_empty key) && is_down e)) [
      | inl holds ↦
          elim (Bool-cases (not (has key held) && leb max_held_web_rtc_inputs (length held))) [
            | inl full ↦ ground (arith, holds, full, h)
            | inr room ↦ subst (Reserved wayland e held) (ground (arith, holds, room, h)) (record {
              few = elim (Bool-cases (has key held)) [
                | inl old ↦ ground (arith, f, length-hold_again key (release_of e) held old)
                | inr new ↦ ground (arith, room, new, length-hold key (release_of e) held)
              ];
              own =
                  All-hold (IsRelease wayland) key (release_of e) held
                    (release_of-IsRelease wayland e (ground (arith, holds))) o;
              exact = λ k n. has-hold k key (release_of e) held ∙ ground (arith, holds);
            })
          ]
      | inr none_ ↦ subst (Reserved wayland e held) (ground (arith, none_, h)) (record {
        few = f;
        own = o;
        exact = λ k n. elim (Bool-cases (text_eq key k)) [
          | inl same ↦ ground (arith, same, none_, n, ap is_empty ((text_eq_iff key k).0 same))
          | inr other ↦ ground (arith, other)
        ];
      })
    ]
  where
    key : Text
    key = held_input_key wayland e

inject_event-Tracks :
    (wayland : Bool) (e : InputEvent) (worked : Bool) (r : Reader) (next : List (Text × InputEvent))
    → Tracks wayland r
    → Reserved wayland e r.held next
    → Tracks wayland (inject_event (held_input_key wayland e) e worked r.tried next).0
unfolding inject_event
inject_event-Tracks wayland e false r next t v = record {
  few = v.few;
  own = v.own;
  exact = λ k n. ground (arith, v.exact k n, t.exact k n);
}
inject_event-Tracks wayland e true r next t v = elim (Bool-cases (is_up e)) [
  | inl up ↦ simp up (record {
    few = ground (arith, v.few, length-delete_key key next);
    own = All-delete_key (IsRelease wayland) key next v.own;
    exact =
        λ k n. has-delete_key k key next ∙ ground (arith, up, v.exact k n, t.exact k n, not_both);
  })
  | inr still ↦ simp still (record {
    few = v.few;
    own = v.own;
    exact = λ k n. ground (arith, still, v.exact k n, t.exact k n);
  })
]
  where
    key : Text
    key = held_input_key wayland e

    not_both : (is_down e && is_up e) ≡ false
    not_both = elim (Bool-cases (is_down e)) [
      | inl d ↦ ground (arith, up_or_down e d)
      | inr d ↦ ground (arith, d)
    ]

turn-Tracks :
    (wayland : Bool) (r : Reader) (a : Arrival)
    → Tracks wayland r
    → Tracks wayland (turn wayland r a).0
unfolding turn with_room
turn-Tracks wayland r context_done t = t
turn-Tracks wayland r channel_closed t = t
turn-Tracks wayland r (arrived raw true injected) t = t
turn-Tracks wayland r (arrived raw false injected) t = go (reserve_hold key e r.held) refl
  where
    e : InputEvent
    e = plain_kind raw

    key : Text
    key = held_input_key wayland e

    go :
        (o : Option (List (Text × InputEvent)))
        → reserve_hold key e r.held ≡ o
        → Tracks wayland (with_room key e injected r o).0
    go none q = t
    go (some next) q =
        inject_event-Tracks wayland e injected r next t
          (reserve_hold-Reserved wayland e r.held next t.few t.own q)

run_input_events-Tracks :
    (wayland : Bool) (arrivals : List Arrival) (r : Reader)
    → Tracks wayland r
    → Tracks wayland (run_input_events wayland arrivals r).0
unfolding run_input_events
run_input_events-Tracks wayland [] r t = t
run_input_events-Tracks wayland (a ∷ as_) r t =
    go (turn wayland r a).1 (turn-Tracks wayland r a t)
      (run_input_events-Tracks wayland as_ (turn wayland r a).0)
  where
    go :
        (exit : Option Exit)
        → Tracks wayland (turn wayland r a).0
        → (Tracks wayland (turn wayland r a).0
            → Tracks wayland (run_input_events wayland as_ (turn wayland r a).0).0)
        → Tracks wayland
            (elim exit as (λ _. Reader × Option Exit) [
              | none ↦ run_input_events wayland as_ (turn wayland r a).0
              | some x ↦ ((turn wayland r a).0, some x)
            ]).0
    go none now later = later now
    go (some x) now later = now

-- The event lifts this key.
abbrev pub lifts : Bool → Text → InputEvent → Bool
lifts wayland k e = is_up e && text_eq (held_input_key wayland e) k

any-releases_of :
    (wayland : Bool) (k : Text) (held : List (Text × InputEvent))
    → All (IsRelease wayland) held
    → any (lifts wayland k) (releases_of held) ≡ has k held
any-releases_of wayland k [] o = refl
any-releases_of wayland k ((j, e) ∷ held) o =
    ground (arith, o.0.0, ap (λ t. text_eq t k) o.0.1, any-releases_of wayland k held o.1)

-- Where the reader stands after any arrivals.
pub record IsSettled (wayland : Bool) (r : Reader) : Type 0 where
  pub few : length r.held ≤ max_held_web_rtc_inputs
  pub released :
      (k : Text)
      → is_empty k ≡ false
      → any (lifts wayland k) (releases_of r.held) ≡ pressed wayland k r.tried

-- After any arrivals, however the injections end, the releases that a reader makes if it ends there lift exactly
-- the keys and buttons that its own injections may have left down: those whose last event that counts is
-- a down, be its injection a success or not, with no successful up behind it. They are at most 256.
pub run_web_rtc_input_events_with_release-IsSettled :
    (wayland : Bool) (arrivals : List Arrival)
    → IsSettled wayland (run_web_rtc_input_events_with_release wayland arrivals).0
unfolding run_web_rtc_input_events_with_release
run_web_rtc_input_events_with_release-IsSettled wayland arrivals = record {
  few = t.few;
  released = λ k n. any-releases_of wayland k _ t.own ∙ t.exact k n;
}
  where
    t : Tracks wayland (run_input_events wayland arrivals (record { held = []; tried = [] })).0
    t =
        run_input_events-Tracks wayland arrivals _
          (record { few = omega arith; own = tt; exact = λ k n. refl })
