-- ===== src/Ownership/Registry.antt =====
-- The registry of the targets of input: `webRTCInputRegistry` of
-- internal/agentcore/remoteaccess/webrtc_input_ownership.go, its critical sections and their orders.
pub mod Kept
pub mod Added
pub mod Released
pub mod Shared
mod Tests
use labtether_linux.Base.{
  ℕ, ◌+◌, ◌-◌, ◌*◌, ◌≡◌, Bool, true, false, ◌&&◌, Option, none, some, List, [], ◌∷◌, ◌++◌,
  if◌then◌else◌, leb, ◌==◌, length,
}
use labtether_linux.Base.Text.{Text, codes, text_eq, is_empty, trim_space}
use labtether_linux.Ownership.{InputTarget, acquire_owner, max_web_rtc_sessions}

-- strictLocalX11DisplayPattern behind its colon: digits, and then perhaps a dot and digits.
unfoldable pub is_display_number : Bool → Bool → Text → Bool
is_display_number seen whole [] = seen
is_display_number seen whole (c ∷ cs) =
    let digit = is_display_number true whole cs in
    let screen = is_display_number false false cs in
    if leb 48 c && leb c 57 then digit else seen && whole && (c == b'.') && screen

-- `NormalizeX11DisplayIdentifier`, of a display without white space around it: the text behind the colon.
abbrev pub display_number : Text → Option Text
display_number [] = none
display_number (c ∷ cs) = if (c == b':') && is_display_number false true cs then some cs else none

unfoldable pub before_dot : Text → Text
before_dot [] = []
before_dot (c ∷ cs) = let rest = before_dot cs in if c == b'.' then [] else c ∷ rest

-- strings.TrimLeft(…, "0")
unfoldable pub trim_zeros : Text → Text
trim_zeros [] = []
trim_zeros (c ∷ cs) = let rest = trim_zeros cs in if c == b'0' then rest else c ∷ cs

abbrev pub or_text : Text → Text → Text
or_text default t = if is_empty t then default else t

abbrev pub x11_target_id : Text → Option Text → Text
x11_target_id display none = codes "x11:" ++ display
x11_target_id display (some number) =
    codes "x11:" ++ or_text (codes "0") (trim_zeros (before_dot number))

-- `webRTCInputTargetID`
unfoldable pub web_rtc_input_target_id : Bool → Text → Text
web_rtc_input_target_id wayland display =
    let d = or_text (codes ":0") (trim_space display) in
    if wayland then codes "ydotool" else x11_target_id d (display_number d)

-- The map of the registry, and the targets that were made, by handles in their order.
pub record Registry : Type 0 where
  pub ids : List (Text × ℕ)
  pub store : ℕ → InputTarget
  pub fresh : ℕ

unfoldable pub find_target : Text → List (Text × ℕ) → Option ℕ
find_target id [] = none
find_target id ((i, h) ∷ ids) =
    let rest = find_target id ids in if text_eq i id then some h else rest

unfoldable pub delete_target : Text → List (Text × ℕ) → List (Text × ℕ)
delete_target id [] = []
delete_target id ((i, h) ∷ ids) =
    let rest = delete_target id ids in if text_eq i id then rest else (i, h) ∷ rest

abbrev pub put_target : ℕ → InputTarget → (ℕ → InputTarget) → ℕ → InputTarget
put_target h t store i = if i == h then t else store i

abbrev pub new_target : InputTarget
new_target = record { owners = []; pending = []; version = 0; leases = 0 }

abbrev pub lease_target : ℕ → ℕ → Registry → Registry
lease_target o h r = record r { store = put_target h (acquire_owner o (r.store h)) r.store }

abbrev pub add_target : Text → Registry → Registry
add_target id r = record {
  ids = (id, r.fresh) ∷ r.ids;
  store = put_target r.fresh new_target r.store;
  fresh = r.fresh + 1;
}

abbrev pub acquire_found : Text → ℕ → Option ℕ → Registry → Option (Registry × ℕ)
acquire_found id o (some h) r = some (lease_target o h r, h)
acquire_found id o none r =
    if leb (2 * max_web_rtc_sessions) (length r.ids)
    then none
    else some (lease_target o r.fresh (add_target id r), r.fresh)

-- `acquire` for a controller `o`: the registry and the target's handle, unless there are too many targets.
unfoldable pub acquire_target : Text → ℕ → Registry → Option (Registry × ℕ)
acquire_target id o r = acquire_found id o (find_target id r.ids) r

-- `release`
unfoldable pub release_target : Text → ℕ → Registry → Registry
release_target id h r =
    let t = record (r.store h) { leases = (r.store h).leases - 1 } in
    let r' = record r { store = put_target h t r.store } in
    if (t.leases == 0) && (length t.pending == 0)
    then record r' { ids = delete_target id r'.ids }
    else r'

-- A reader of a session between its `acquire` and its `release`.
pub record Lease : Type 0 where
  pub wayland : Bool
  pub display : Text
  pub target : ℕ

abbrev pub id_of : Lease → Text
id_of l = web_rtc_input_target_id l.wayland l.display

pub record Leases : Type 0 where
  pub registry : Registry
  pub live : List Lease

-- The critical sections of the registry in any order, and between them the turns of the readers at their targets,
-- which leave the count of leases alone.
pub data Step : Leases → Leases → Type 0 where
  acquires :
      {w : Leases} (wayland : Bool) (display : Text) (o h : ℕ) (r : Registry)
      → acquire_target (web_rtc_input_target_id wayland display) o w.registry ≡ some (r, h)
      → Step w (record {
        registry = r;
        live = record { wayland = wayland; display = display; target = h } ∷ w.live;
      })
  turns :
      {w : Leases} (before after : List Lease) (l : Lease) (t : InputTarget)
      → w.live ≡ before ++ (l ∷ after)
      → t.leases ≡ (w.registry.store l.target).leases
      → Step w (record w {
        registry = record w.registry { store = put_target l.target t w.registry.store };
      })
  releases :
      {w : Leases} (before after : List Lease) (l : Lease)
      → w.live ≡ before ++ (l ∷ after)
      → Step w (record {
        registry = release_target (id_of l) l.target w.registry;
        live = before ++ after;
      })

abbrev pub no_leases : Leases
no_leases = record { registry = record { ids = []; store = λ h. new_target; fresh = 0 }; live = [] }

pub data Leased : Leases → Type 0 where
  none_yet : Leased no_leases
  then_ : {w w' : Leases} → Leased w → Step w w' → Leased w'
