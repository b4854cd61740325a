-- ===== src/Keymap.antt =====
-- The key maps of internal/agentcore/remoteaccess/webrtc_keymap.go: from the codes and keys of a browser's
-- events to the codes and keysyms that the agent injects.
pub mod InputCodes
pub mod Keysyms
pub mod Agree
mod Tests
use labtether_linux.Base.{ℕ, Option, none, some, List, [], ◌∷◌, if◌then◌else◌, ◌==◌}
use labtether_linux.Base.Text.{Text, text_eq, trim_space, to_lower, is_empty, byte_len}
use labtether_linux.Keymap.InputCodes.{dom_code_linux_input_codes}
use labtether_linux.Keymap.Keysyms.{dom_code_x11_keysyms, dom_key_x11_keysyms}

unfoldable pub lookup_key {ℓ} : {A : Type ℓ} → Text → List (Text × A) → Option A
lookup_key k [] = none
lookup_key k ((j, v) ∷ t) = if text_eq j k then some v else lookup_key k t

unfoldable pub dom_code_to_linux_input_code : Text → Option ℕ
dom_code_to_linux_input_code code = lookup_key (trim_space code) dom_code_linux_input_codes

pub dom_code_to_x11_keysym : Text → Option Text
dom_code_to_x11_keysym code = lookup_key (trim_space code) dom_code_x11_keysyms

-- A key of one byte is its own keysym, in lower case.
pub dom_key_to_x11_keysym : Text → Option Text
dom_key_to_x11_keysym key =
    let trimmed = trim_space key in
    if is_empty trimmed then none else elim (lookup_key trimmed dom_key_x11_keysyms) [
      | some keysym ↦ some keysym
      | none ↦ if byte_len trimmed == 1 then some (to_lower trimmed) else none
    ]
