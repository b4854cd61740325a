-- ===== src/Keymap/Tests.antt =====
-- Runs of the key maps of internal/agentcore/remoteaccess/webrtc_keymap.go.
use labtether_linux.Base.{◌≡◌, refl, some}
use labtether_linux.Base.Text.{Text, codes, trim_space}
use labtether_linux.Keymap.{
  lookup_key, dom_code_to_linux_input_code, dom_code_to_x11_keysym, dom_key_to_x11_keysym,
}

runs_letter : dom_key_to_x11_keysym (codes " Q") ≡ some (codes "q")
unfolding dom_key_to_x11_keysym lookup_key labtether_linux.Base.Text.trim_space
    labtether_linux.Base.Text.to_lower labtether_linux.Base.Text.text_eq
    labtether_linux.Base.Text.byte_len
runs_letter = refl

key_a : dom_code_to_linux_input_code (codes "KeyA") ≡ some 30
unfolding dom_code_to_linux_input_code lookup_key labtether_linux.Base.Text.trim_space
    labtether_linux.Base.Text.text_eq
key_a = refl

keysym_a : dom_code_to_x11_keysym (codes "KeyA") ≡ some (codes "a")
unfolding dom_code_to_x11_keysym lookup_key labtether_linux.Base.Text.trim_space
    labtether_linux.Base.Text.text_eq
keysym_a = refl
