-- ===== src/Keymap/InputCodes.antt =====
-- The table of Linux input codes in internal/agentcore/remoteaccess/webrtc_keymap.go.
use labtether_linux.Base.{ℕ, List, [], ◌∷◌}
use labtether_linux.Base.Text.{Text, codes}

abbrev pub dom_code_linux_input_codes : List (Text × ℕ)
dom_code_linux_input_codes =
    (codes "Escape", 1)
    ∷ (codes "Digit1", 2)
    ∷ (codes "Digit2", 3)
    ∷ (codes "Digit3", 4)
    ∷ (codes "Digit4", 5)
    ∷ (codes "Digit5", 6)
    ∷ (codes "Digit6", 7)
    ∷ (codes "Digit7", 8)
    ∷ (codes "Digit8", 9)
    ∷ (codes "Digit9", 10)
    ∷ (codes "Digit0", 11)
    ∷ (codes "Minus", 12)
    ∷ (codes "Equal", 13)
    ∷ (codes "Backspace", 14)
    ∷ (codes "Tab", 15)
    ∷ (codes "KeyQ", 16)
    ∷ (codes "KeyW", 17)
    ∷ (codes "KeyE", 18)
    ∷ (codes "KeyR", 19)
    ∷ (codes "KeyT", 20)
    ∷ (codes "KeyY", 21)
    ∷ (codes "KeyU", 22)
    ∷ (codes "KeyI", 23)
    ∷ (codes "KeyO", 24)
    ∷ (codes "KeyP", 25)
    ∷ (codes "BracketLeft", 26)
    ∷ (codes "BracketRight", 27)
    ∷ (codes "Enter", 28)
    ∷ (codes "ControlLeft", 29)
    ∷ (codes "KeyA", 30)
    ∷ (codes "KeyS", 31)
    ∷ (codes "KeyD", 32)
    ∷ (codes "KeyF", 33)
    ∷ (codes "KeyG", 34)
    ∷ (codes "KeyH", 35)
    ∷ (codes "KeyJ", 36)
    ∷ (codes "KeyK", 37)
    ∷ (codes "KeyL", 38)
    ∷ (codes "Semicolon", 39)
    ∷ (codes "Quote", 40)
    ∷ (codes "Backquote", 41)
    ∷ (codes "ShiftLeft", 42)
    ∷ (codes "Backslash", 43)
    ∷ (codes "KeyZ", 44)
    ∷ (codes "KeyX", 45)
    ∷ (codes "KeyC", 46)
    ∷ (codes "KeyV", 47)
    ∷ (codes "KeyB", 48)
    ∷ (codes "KeyN", 49)
    ∷ (codes "KeyM", 50)
    ∷ (codes "Comma", 51)
    ∷ (codes "Period", 52)
    ∷ (codes "Slash", 53)
    ∷ (codes "ShiftRight", 54)
    ∷ (codes "NumpadMultiply", 55)
    ∷ (codes "AltLeft", 56)
    ∷ (codes "Space", 57)
    ∷ (codes "CapsLock", 58)
    ∷ (codes "F1", 59)
    ∷ (codes "F2", 60)
    ∷ (codes "F3", 61)
    ∷ (codes "F4", 62)
    ∷ (codes "F5", 63)
    ∷ (codes "F6", 64)
    ∷ (codes "F7", 65)
    ∷ (codes "F8", 66)
    ∷ (codes "F9", 67)
    ∷ (codes "F10", 68)
    ∷ (codes "NumLock", 69)
    ∷ (codes "ScrollLock", 70)
    ∷ (codes "Numpad7", 71)
    ∷ (codes "Numpad8", 72)
    ∷ (codes "Numpad9", 73)
    ∷ (codes "NumpadSubtract", 74)
    ∷ (codes "Numpad4", 75)
    ∷ (codes "Numpad5", 76)
    ∷ (codes "Numpad6", 77)
    ∷ (codes "NumpadAdd", 78)
    ∷ (codes "Numpad1", 79)
    ∷ (codes "Numpad2", 80)
    ∷ (codes "Numpad3", 81)
    ∷ (codes "Numpad0", 82)
    ∷ (codes "NumpadDecimal", 83)
    ∷ (codes "F11", 87)
    ∷ (codes "F12", 88)
    ∷ (codes "NumpadEnter", 96)
    ∷ (codes "ControlRight", 97)
    ∷ (codes "NumpadDivide", 98)
    ∷ (codes "PrintScreen", 99)
    ∷ (codes "AltRight", 100)
    ∷ (codes "Home", 102)
    ∷ (codes "ArrowUp", 103)
    ∷ (codes "PageUp", 104)
    ∷ (codes "ArrowLeft", 105)
    ∷ (codes "ArrowRight", 106)
    ∷ (codes "End", 107)
    ∷ (codes "ArrowDown", 108)
    ∷ (codes "PageDown", 109)
    ∷ (codes "Insert", 110)
    ∷ (codes "Delete", 111)
    ∷ (codes "MetaLeft", 125)
    ∷ (codes "MetaRight", 126)
    ∷ (codes "ContextMenu", 127)
    ∷ []
