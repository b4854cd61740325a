-- ===== src/Input/Keys.antt =====
-- Under which names inputs are held, and which keys are injected: `webRTCHeldInputKey` of
-- internal/agentcore/remoteaccess/webrtc_input_lifecycle.go and `X11KeyArgument` of webrtc_input.go.
use labtether_linux.Base.{
  ℕ, ◌<◌, ◌≡◌, ◌≢◌, refl, sym, ap, subst, ◌∙◌, Bool, true, false, ◌||◌, Option, none, some, [],
  ◌++◌, ◌==◌, arith, Bool-cases, inl, inr, ◌⊎◌,
}
use labtether_linux.Base.Int.{pos}
use labtether_linux.Base.Text.{Text, codes, text_eq, text_eq_iff, trim_space}
use labtether_linux.Base.Trim.{trim_space-trim_space}
use labtether_linux.Base.Decimal.{itoa, IsInt, itoa_injective}
use labtether_linux.Keymap.{dom_code_to_linux_input_code, dom_code_to_x11_keysym}
use labtether_linux.Keymap.Agree.{
  dom_code_to_linux_input_code_injective, dom_code_to_linux_input_code_bound,
}
use labtether_linux.Input.{InputEvent, is_kind, x11_key_argument, held_input_key}

abbrev pub IsButton : InputEvent → Type 0
IsButton e = (e.kind ≡ codes "mousedown") ⊎ (e.kind ≡ codes "mouseup")

-- An event of a key, with the X11 key code it was resolved to (0 for none).
abbrev pub IsKey : InputEvent → Type 0
IsKey e = (e.kind ≡ codes "keydown") ⊎ (e.kind ≡ codes "keyup")

-- What an event is held as.
data HeldAs (wayland : Bool) (e : InputEvent) (name : Text) : Type 0 where
  as_button : IsButton e → name ≡ codes "button:" ++ itoa e.button → HeldAs wayland e name
  as_x11_keycode :
      IsKey e
      → e.x11_keycode ≢ 0
      → name ≡ codes "x11-keycode:" ++ itoa (pos e.x11_keycode)
      → HeldAs wayland e name
  as_input_code :
      wayland ≡ true
      → IsKey e
      → e.x11_keycode ≡ 0
      → (n : ℕ) → dom_code_to_linux_input_code (trim_space e.code) ≡ some n
      → name ≡ codes "key:" ++ itoa (pos n)
      → HeldAs wayland e name
  as_argument :
      wayland ≡ false
      → IsKey e
      → e.x11_keycode ≡ 0
      → (a : Text) → x11_key_argument e ≡ some a
      → name ≡ codes "key:" ++ a
      → HeldAs wayland e name

one_of : (a b c : Text) → (text_eq a b || text_eq a c) ≡ true → (a ≡ b) ⊎ (a ≡ c)
one_of a b c h = elim (Bool-cases (text_eq a b)) [
  | inl y ↦ inl ((text_eq_iff a b).0 y)
  | inr n ↦ inr ((text_eq_iff a c).0 (ground (arith, n, h)))
]

held_input_key-HeldAs :
    (wayland : Bool) (e : InputEvent)
    → held_input_key wayland e ≢ []
    → HeldAs wayland e (held_input_key wayland e)
unfolding held_input_key
held_input_key-HeldAs wayland e h =
    elim (Bool-cases (is_kind (codes "mousedown") e || is_kind (codes "mouseup") e)) [
      | inl button ↦ as_button (one_of e.kind _ _ button) (rw button refl)
      | inr other ↦ elim (Bool-cases (is_kind (codes "keydown") e || is_kind (codes "keyup") e)) [
        | inr neither ↦ absurd (h (rw (other, neither) refl))
        | inl key ↦ elim (Bool-cases (e.x11_keycode == 0)) [
          | inr resolved ↦
              as_x11_keycode (one_of e.kind _ _ key) (ground (arith, resolved))
                (rw (other, key, resolved) refl)
          | inl plain ↦
              by_code other key plain wayland refl
                (dom_code_to_linux_input_code (trim_space e.code)) refl (x11_key_argument e) refl
        ]
      ]
    ]
  where
    by_code :
        (is_kind (codes "mousedown") e || is_kind (codes "mouseup") e) ≡ false
        → (is_kind (codes "keydown") e || is_kind (codes "keyup") e) ≡ true
        → (e.x11_keycode == 0) ≡ true
        → (w : Bool) → wayland ≡ w
        → (o : Option ℕ) → dom_code_to_linux_input_code (trim_space e.code) ≡ o
        → (a : Option Text) → x11_key_argument e ≡ a
        → HeldAs wayland e (held_input_key wayland e)
    by_code other key plain true is_wayland (some n) code a arg =
        as_input_code is_wayland (one_of e.kind _ _ key) (ground (arith, plain)) n code
          (rw (other, key, plain, is_wayland, code) refl)
    by_code other key plain true is_wayland none code a arg =
        absurd (h (rw (other, key, plain, is_wayland, code) refl))
    by_code other key plain false is_x11 o code (some a) arg =
        as_argument is_x11 (one_of e.kind _ _ key) (ground (arith, plain)) a arg
          (rw (other, key, plain, is_x11, arg) refl)
    by_code other key plain false is_x11 o code none arg =
        absurd (h (rw (other, key, plain, is_x11, arg) refl))

-- The fields of an event are machine integers: an int and an uint8.
abbrev pub IsMachine : InputEvent → Type 0
IsMachine e = IsInt e.button × (e.x11_keycode < 256)

-- Two events of one input: one button; one X11 key code; or, if neither has an X11 key code, one code of a key, up to
-- surrounding blanks, under Wayland, and one argument that names the key under X11.
pub data SameInput (wayland : Bool) (d u : InputEvent) : Type 0 where
  same_button : IsButton d → IsButton u → d.button ≡ u.button → SameInput wayland d u
  same_x11_keycode :
      IsKey d → IsKey u → d.x11_keycode ≢ 0 → d.x11_keycode ≡ u.x11_keycode → SameInput wayland d u
  same_code :
      wayland ≡ true
      → IsKey d
      → IsKey u
      → d.x11_keycode ≡ 0
      → u.x11_keycode ≡ 0
      → trim_space d.code ≡ trim_space u.code
      → SameInput wayland d u
  same_argument :
      wayland ≡ false
      → IsKey d
      → IsKey u
      → d.x11_keycode ≡ 0
      → u.x11_keycode ≡ 0
      → (a : Text) → x11_key_argument d ≡ some a
      → x11_key_argument u ≡ some a
      → SameInput wayland d u

IsInt-of_byte : (n : ℕ) → n < 256 → IsInt (pos n)
IsInt-of_byte n h = omega (arith, h)

IsInt-of_code : (n : ℕ) → n < 1024 → IsInt (pos n)
IsInt-of_code n h = omega (arith, h)

pos_injective : (m n : ℕ) → pos m ≡ pos n → m ≡ n
pos_injective m n e = cc

same_linux_code :
    (a b : Text) (m n : ℕ)
    → dom_code_to_linux_input_code (trim_space a) ≡ some m
    → dom_code_to_linux_input_code (trim_space b) ≡ some n
    → itoa (pos m) ≡ itoa (pos n)
    → trim_space a ≡ trim_space b
same_linux_code a b m n p q e =
    let same : m ≡ n = pos_injective m n (
      itoa_injective (pos m) (pos n) (IsInt-of_code m (dom_code_to_linux_input_code_bound _ m p))
        (IsInt-of_code n (dom_code_to_linux_input_code_bound _ n q)) e) in
    sym (trim_space-trim_space a)
    ∙ dom_code_to_linux_input_code_injective (trim_space a) (trim_space b) m p
        (q ∙ ap some (sym same))
    ∙ trim_space-trim_space b

HeldAs-SameInput :
    (wayland : Bool) (d u : InputEvent) (name : Text)
    → IsMachine d
    → IsMachine u
    → HeldAs wayland d name
    → HeldAs wayland u name
    → SameInput wayland d u
HeldAs-SameInput w d u name (bd, kd) (bu, ku) (as_button p e) (as_button q f) =
    let texts : itoa d.button ≡ itoa u.button = cc in
    same_button p q (itoa_injective d.button u.button bd bu texts)
HeldAs-SameInput w d u name (bd, kd) (bu, ku) (as_x11_keycode p n e) (as_x11_keycode q m f) =
    let texts : itoa (pos d.x11_keycode) ≡ itoa (pos u.x11_keycode) = cc in
    same_x11_keycode p q n (
      pos_injective _ _ (
        itoa_injective _ _ (IsInt-of_byte d.x11_keycode kd) (IsInt-of_byte u.x11_keycode ku) texts))
HeldAs-SameInput w d u name md mu (as_input_code w1 p z m c e) (as_input_code w2 q y n k f) =
    let texts : itoa (pos m) ≡ itoa (pos n) = cc in
    same_code w1 p q z y (same_linux_code d.code u.code m n c k texts)
HeldAs-SameInput w d u name md mu (as_argument w1 p z a c e) (as_argument w2 q y b k f) =
    let texts : a ≡ b = cc in same_argument w1 p q z y a c (k ∙ ap some (sym texts))
HeldAs-SameInput w d u name md mu (as_button p e) (as_x11_keycode q m f) = ground (arith, e, f)
HeldAs-SameInput w d u name md mu (as_button p e) (as_input_code w2 q y n k f) =
    ground (arith, e, f)
HeldAs-SameInput w d u name md mu (as_button p e) (as_argument w2 q y b k f) = ground (arith, e, f)
HeldAs-SameInput w d u name md mu (as_x11_keycode p n e) (as_button q f) = ground (arith, e, f)
HeldAs-SameInput w d u name md mu (as_x11_keycode p n e) (as_input_code w2 q y m k f) =
    ground (arith, e, f)
HeldAs-SameInput w d u name md mu (as_x11_keycode p n e) (as_argument w2 q y b k f) =
    ground (arith, e, f)
HeldAs-SameInput w d u name md mu (as_input_code w1 p z m c e) (as_button q f) =
    ground (arith, e, f)
HeldAs-SameInput w d u name md mu (as_input_code w1 p z m c e) (as_x11_keycode q n f) =
    ground (arith, e, f)
HeldAs-SameInput w d u name md mu (as_input_code w1 p z m c e) (as_argument w2 q y b k f) =
    ground (arith, w1, w2)
HeldAs-SameInput w d u name md mu (as_argument w1 p z a c e) (as_button q f) = ground (arith, e, f)
HeldAs-SameInput w d u name md mu (as_argument w1 p z a c e) (as_x11_keycode q n f) =
    ground (arith, e, f)
HeldAs-SameInput w d u name md mu (as_argument w1 p z a c e) (as_input_code w2 q y n k f) =
    ground (arith, w1, w2)

-- Two events that are held under one name, which is not empty, are events of one input, their fields being machine
-- integers: of one button; of keys with one X11 key code; or of keys that have none, under Wayland with one code up to
-- surrounding blanks, and under X11 named by one argument.
pub held_input_key-SameInput :
    (wayland : Bool) (d u : InputEvent)
    → IsMachine d
    → IsMachine u
    → held_input_key wayland d ≢ []
    → held_input_key wayland d ≡ held_input_key wayland u
    → SameInput wayland d u
held_input_key-SameInput wayland d u md mu some_name same =
    HeldAs-SameInput wayland d u (held_input_key wayland u) md mu
      (subst (HeldAs wayland d) same (held_input_key-HeldAs wayland d some_name))
      (held_input_key-HeldAs wayland u (λ e. some_name (same ∙ e)))

-- The same event without a code.
abbrev pub without_code : InputEvent → InputEvent
without_code e = record e { code = [] }

-- What the code of an event counts for: for both tables, so that it names the key under Wayland and, whatever the key and
-- the key code are, under X11; or for neither.
abbrev pub Counts : InputEvent → Type 0
Counts e =
    ((n : ℕ) × (s : Text) × (dom_code_to_linux_input_code e.code ≡ some n)
      × (dom_code_to_x11_keysym e.code ≡ some s)
      × (x11_key_argument e ≡ some s))
    ⊎ ((dom_code_to_linux_input_code e.code ≡ none)
        × (dom_code_to_x11_keysym e.code ≡ none)
        × (x11_key_argument e ≡ x11_key_argument (without_code e)))
