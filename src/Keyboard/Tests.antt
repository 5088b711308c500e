-- ===== src/Keyboard/Tests.antt =====
-- Runs of the keyboard driver, and its theorems at concrete inputs.
use innovati_os.Base.{ℕ, ◌<◌, ◌≡◌, ◌⊎◌, refl, true, false, none, some, [], ◌∷◌, arith}
use mathlib.Core.Bool.{xor}
use innovati_os.Ring
use innovati_os.Ring.Contents.{contents}
use innovati_os.Keyboard.{
  Keyboard, push_key, push_if, translate, with_ctrl, normal_key, extended_key, handle_normal,
  handle_extended, handle_code, handle_irq, handle_irqs, keycode_to_ascii,
}
use innovati_os.Keyboard.Codes.{scancode_ascii, scancode_ascii_shift, key_limit}
use innovati_os.Keyboard.Invariant.{IsKeyboard, handle_irq-IsKeyboard}
use innovati_os.Keyboard.Modifiers.{Tracks, handle_irq-Tracks, gui_never_released}
use innovati_os.Keyboard.Sequences.{emits, with_key, is_release, handle_irq-contents}

abbrev idle : Keyboard
idle = record {
  ring = record { buf = λ _. 0; head = 0; tail = 0 };
  shift_held = false;
  ctrl_held = false;
  alt_held = false;
  gui_held = false;
  capslock = false;
  numlock = false;
  scrolllock = false;
  extended = false;
  pause_left = 0;
}

abbrev prefixed : Keyboard
prefixed = record idle { extended = true }

idle-IsKeyboard : IsKeyboard idle
idle-IsKeyboard = omega arith

-- Shift down, A, Shift up, A, and the right arrow.
typing :
    contents (handle_irqs idle (0x2A ∷ 0x1E ∷ 0xAA ∷ 0x1E ∷ 0xE0 ∷ 0x4D ∷ [])).ring
    ≡ 282 ∷ 65 ∷ 282 ∷ 97 ∷ 259 ∷ []
unfolding contents handle_irqs handle_irq handle_code handle_normal handle_extended normal_key
    extended_key push_if push_key translate with_ctrl scancode_ascii scancode_ascii_shift Ring.push
    xor
typing = refl

numpad_locked : keycode_to_ascii 299 ≡ b'7'
unfolding keycode_to_ascii
numpad_locked = refl

handle_irq-IsKeyboard_example : IsKeyboard (handle_irq idle 0x1E)
handle_irq-IsKeyboard_example = handle_irq-IsKeyboard idle 0x1E idle-IsKeyboard

handle_irq-Tracks_example : Tracks idle 0x2A (handle_irq idle 0x2A)
handle_irq-Tracks_example =
    handle_irq-Tracks idle 0x2A (omega arith) refl (omega arith) (omega arith)

gui_never_released_example :
    (handle_irqs (handle_irq prefixed 0x5B) (0xE0 ∷ 0xDB ∷ [])).gui_held ≡ true
gui_never_released_example = gui_never_released (0xE0 ∷ 0xDB ∷ []) prefixed refl refl

handle_irq-contents_example :
    (contents (handle_irq idle 0x1E).ring ≡ with_key idle.ring (emits idle 0x1E))
    × ((x : ℕ) → emits idle 0x1E ≡ some x → (0 < x) × (x < key_limit))
    × ((is_release idle 0x1E ≡ false) ⊎ (emits idle 0x1E ≡ none))
handle_irq-contents_example = handle_irq-contents idle 0x1E idle-IsKeyboard
