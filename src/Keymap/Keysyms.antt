-- ===== src/Keymap/Keysyms.antt =====
-- The tables of X11 keysyms in internal/agentcore/remoteaccess/webrtc_keymap.go.
use labtether_linux.Base.{List, [], ◌∷◌}
use labtether_linux.Base.Text.{Text, codes}

abbrev pub dom_code_x11_keysyms : List (Text × Text)
dom_code_x11_keysyms =
    (codes "Backquote", codes "grave")
    ∷ (codes "Backslash", codes "backslash")
    ∷ (codes "Backspace", codes "BackSpace")
    ∷ (codes "BracketLeft", codes "bracketleft")
    ∷ (codes "BracketRight", codes "bracketright")
    ∷ (codes "CapsLock", codes "Caps_Lock")
    ∷ (codes "Comma", codes "comma")
    ∷ (codes "ContextMenu", codes "Menu")
    ∷ (codes "ControlLeft", codes "Control_L")
    ∷ (codes "ControlRight", codes "Control_R")
    ∷ (codes "Delete", codes "Delete")
    ∷ (codes "Digit0", codes "0")
    ∷ (codes "Digit1", codes "1")
    ∷ (codes "Digit2", codes "2")
    ∷ (codes "Digit3", codes "3")
    ∷ (codes "Digit4", codes "4")
    ∷ (codes "Digit5", codes "5")
    ∷ (codes "Digit6", codes "6")
    ∷ (codes "Digit7", codes "7")
    ∷ (codes "Digit8", codes "8")
    ∷ (codes "Digit9", codes "9")
    ∷ (codes "End", codes "End")
    ∷ (codes "Enter", codes "Return")
    ∷ (codes "Equal", codes "equal")
    ∷ (codes "Escape", codes "Escape")
    ∷ (codes "F1", codes "F1")
    ∷ (codes "F10", codes "F10")
    ∷ (codes "F11", codes "F11")
    ∷ (codes "F12", codes "F12")
    ∷ (codes "F2", codes "F2")
    ∷ (codes "F3", codes "F3")
    ∷ (codes "F4", codes "F4")
    ∷ (codes "F5", codes "F5")
    ∷ (codes "F6", codes "F6")
    ∷ (codes "F7", codes "F7")
    ∷ (codes "F8", codes "F8")
    ∷ (codes "F9", codes "F9")
    ∷ (codes "Home", codes "Home")
    ∷ (codes "Insert", codes "Insert")
    ∷ (codes "KeyA", codes "a")
    ∷ (codes "KeyB", codes "b")
    ∷ (codes "KeyC", codes "c")
    ∷ (codes "KeyD", codes "d")
    ∷ (codes "KeyE", codes "e")
    ∷ (codes "KeyF", codes "f")
    ∷ (codes "KeyG", codes "g")
    ∷ (codes "KeyH", codes "h")
    ∷ (codes "KeyI", codes "i")
    ∷ (codes "KeyJ", codes "j")
    ∷ (codes "KeyK", codes "k")
    ∷ (codes "KeyL", codes "l")
    ∷ (codes "KeyM", codes "m")
    ∷ (codes "KeyN", codes "n")
    ∷ (codes "KeyO", codes "o")
    ∷ (codes "KeyP", codes "p")
    ∷ (codes "KeyQ", codes "q")
    ∷ (codes "KeyR", codes "r")
    ∷ (codes "KeyS", codes "s")
    ∷ (codes "KeyT", codes "t")
    ∷ (codes "KeyU", codes "u")
    ∷ (codes "KeyV", codes "v")
    ∷ (codes "KeyW", codes "w")
    ∷ (codes "KeyX", codes "x")
    ∷ (codes "KeyY", codes "y")
    ∷ (codes "KeyZ", codes "z")
    ∷ (codes "MetaLeft", codes "Super_L")
    ∷ (codes "MetaRight", codes "Super_R")
    ∷ (codes "Minus", codes "minus")
    ∷ (codes "NumLock", codes "Num_Lock")
    ∷ (codes "Numpad0", codes "KP_0")
    ∷ (codes "Numpad1", codes "KP_1")
    ∷ (codes "Numpad2", codes "KP_2")
    ∷ (codes "Numpad3", codes "KP_3")
    ∷ (codes "Numpad4", codes "KP_4")
    ∷ (codes "Numpad5", codes "KP_5")
    ∷ (codes "Numpad6", codes "KP_6")
    ∷ (codes "Numpad7", codes "KP_7")
    ∷ (codes "Numpad8", codes "KP_8")
    ∷ (codes "Numpad9", codes "KP_9")
    ∷ (codes "NumpadAdd", codes "KP_Add")
    ∷ (codes "NumpadDecimal", codes "KP_Decimal")
    ∷ (codes "NumpadDivide", codes "KP_Divide")
    ∷ (codes "NumpadEnter", codes "KP_Enter")
    ∷ (codes "NumpadMultiply", codes "KP_Multiply")
    ∷ (codes "NumpadSubtract", codes "KP_Subtract")
    ∷ (codes "PageDown", codes "Page_Down")
    ∷ (codes "PageUp", codes "Page_Up")
    ∷ (codes "Period", codes "period")
    ∷ (codes "PrintScreen", codes "Print")
    ∷ (codes "Quote", codes "apostrophe")
    ∷ (codes "ScrollLock", codes "Scroll_Lock")
    ∷ (codes "Semicolon", codes "semicolon")
    ∷ (codes "ShiftLeft", codes "Shift_L")
    ∷ (codes "ShiftRight", codes "Shift_R")
    ∷ (codes "Slash", codes "slash")
    ∷ (codes "Space", codes "space")
    ∷ (codes "Tab", codes "Tab")
    ∷ (codes "AltLeft", codes "Alt_L")
    ∷ (codes "AltRight", codes "Alt_R")
    ∷ (codes "ArrowDown", codes "Down")
    ∷ (codes "ArrowLeft", codes "Left")
    ∷ (codes "ArrowRight", codes "Right")
    ∷ (codes "ArrowUp", codes "Up")
    ∷ []

abbrev pub dom_key_x11_keysyms : List (Text × Text)
dom_key_x11_keysyms =
    (codes "Alt", codes "Alt_L")
    ∷ (codes "Backspace", codes "BackSpace")
    ∷ (codes "CapsLock", codes "Caps_Lock")
    ∷ (codes "Control", codes "Control_L")
    ∷ (codes "Delete", codes "Delete")
    ∷ (codes "Down", codes "Down")
    ∷ (codes "End", codes "End")
    ∷ (codes "Enter", codes "Return")
    ∷ (codes "Escape", codes "Escape")
    ∷ (codes "Home", codes "Home")
    ∷ (codes "Insert", codes "Insert")
    ∷ (codes "Left", codes "Left")
    ∷ (codes "Meta", codes "Super_L")
    ∷ (codes "NumLock", codes "Num_Lock")
    ∷ (codes "PageDown", codes "Page_Down")
    ∷ (codes "PageUp", codes "Page_Up")
    ∷ (codes "Right", codes "Right")
    ∷ (codes "ScrollLock", codes "Scroll_Lock")
    ∷ (codes "Shift", codes "Shift_L")
    ∷ (codes "Tab", codes "Tab")
    ∷ (codes "Up", codes "Up")
    ∷ []
