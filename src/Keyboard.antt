-- ===== src/Keyboard.antt =====
-- The PS/2 keyboard driver, kernel/src/drivers/keyboard.c, from the scan code that the interrupt
-- handler reads to the key codes in the ring, and the helper `keycode_to_ascii` of its header.
--
-- The C flags of type `int` hold 0 or 1 and are Booleans. A scan code is a byte, an argument of the
-- handler in place of `inb`. `keyboard_init` only unmasks the interrupt line.
pub mod Codes
pub mod Invariant
pub mod Keys
pub mod Modifiers
pub mod Sequences
mod Tests
use innovati_os.Base.{
  ℕ, zero, suc, ◌+◌, ◌-◌, ◌*◌, ◌%◌, List, [], ◌∷◌, Bool, true, false, not, ◌&&◌, ◌||◌, Option, none,
  some, ◌==◌, ltb, leb, if◌then◌else◌, get_or,
}
use innovati_os.Ring
use innovati_os.Ring.{Ring}
use mathlib.Core.Bool.{xor}
use Codes.{
  key_special_base, key_up, key_down, key_left, key_right, key_home, key_end, key_page_up,
  key_page_down, key_insert, key_delete, key_f1, key_f11, key_f12, key_lshift, key_rshift, key_lgui,
  key_rgui, key_menu, key_printscreen, key_pause, key_numpad_0, key_numpad_9, key_numpad_dot,
  key_numpad_plus, key_numpad_minus, key_numpad_star, key_numpad_slash, key_numpad_enter,
  scancode_ascii, scancode_ascii_shift, numpad_ascii, numpad_nav,
}

pub record Keyboard : Type 0 where
  pub ring : Ring
  pub shift_held : Bool
  pub ctrl_held : Bool
  pub alt_held : Bool
  pub gui_held : Bool
  pub capslock : Bool
  pub numlock : Bool
  pub scrolllock : Bool
  pub extended : Bool
  pub pause_left : ℕ

-- `kb_buffer_push`: a key that does not fit is dropped.
unfoldable pub push_key : Keyboard → ℕ → Keyboard
push_key k key = record k { ring = (Ring.push k.ring key).0 }

-- `kb_buffer_push` on the branches that push, and nothing on the others.
unfoldable pub push_if : Keyboard → Option ℕ → Keyboard
push_if k none = k
push_if k (some key) = push_key k key

-- `keyboard_has_key` and `keyboard_has_char`
unfoldable pub has_key : Keyboard → Bool
has_key k = not (Ring.is_empty k.ring)

-- `keyboard_read_key`; `none`: the loop waits for an interrupt.
unfoldable pub read_key : Keyboard → Keyboard × Option ℕ
read_key k = let (r, key) = Ring.pop k.ring in (record k { ring = r }, key)

abbrev pub to_char : ℕ → ℕ
to_char key = if ltb key key_special_base then key else 0

-- `keyboard_read_char`
unfoldable pub read_char : Keyboard → Keyboard × Option ℕ
read_char k =
    let (k', key) = read_key k in (k', elim key [ none ↦ none | some c ↦ some (to_char c) ])

abbrev pub bit_if : Bool → ℕ → ℕ
bit_if b n = if b then n else 0

-- `keyboard_get_modifiers`: the bits are different, so `|=` is a sum.
unfoldable pub get_modifiers : Keyboard → ℕ
get_modifiers k =
    bit_if k.shift_held 1
    + bit_if k.ctrl_held 2
    + bit_if k.alt_held 4
    + bit_if k.gui_held 8
    + bit_if k.capslock 16
    + bit_if k.numlock 32
    + bit_if k.scrolllock 64

abbrev pub is_lower : ℕ → Bool
is_lower c = leb b'a' c && leb c b'z'

abbrev pub is_upper : ℕ → Bool
is_upper c = leb b'A' c && leb c b'Z'

-- The last step of `translate_normal_key`: a letter under Ctrl is a control character.
unfoldable pub with_ctrl : Bool → ℕ → ℕ
with_ctrl ctrl c =
    if ctrl
    then (if is_lower c then c - b'a' + 1 else if is_upper c then c - b'A' + 1 else c)
    else c

unfoldable pub translate : Keyboard → ℕ → ℕ
translate k code =
    let base = get_or scancode_ascii code 0 in
    let use_shift = if is_lower base then xor k.shift_held k.capslock else k.shift_held in
    if base == 0
    then 0
    else with_ctrl k.ctrl_held (if use_shift then get_or scancode_ascii_shift code 0 else base)

-- The branch of `handle_normal` for the numeric keypad.
unfoldable pub numpad_key : Keyboard → ℕ → Option ℕ
numpad_key k code =
    let digit = get_or numpad_ascii (code - 0x47) 0 in
    let nav = get_or numpad_nav (code - 0x47) 0 in
    if digit == b'-'
    then some key_numpad_minus
    else if digit == b'+'
    then some key_numpad_plus
    else if k.numlock
    then some (if digit == b'.' then key_numpad_dot else key_numpad_0 + (digit - b'0'))
    else if nav == 0
    then none
    else some nav

-- What `handle_normal` pushes for the codes that its `switch` does not take.
unfoldable pub normal_key : Keyboard → ℕ → Bool → Option ℕ
normal_key k code is_break =
    let c = translate k code in
    if not is_break && (leb 0x3B code && leb code 0x44)
    then some (key_f1 + (code - 0x3B))
    else if not is_break && (code == 0x57)
    then some key_f11
    else if not is_break && (code == 0x58)
    then some key_f12
    else if code == 0x37
    then (if is_break then none else some key_numpad_star)
    else if leb 0x47 code && leb code 0x53
    then (if is_break then none else numpad_key k code)
    else if is_break
    then none
    else if c == 0
    then none
    else some c

unfoldable pub handle_normal : Keyboard → ℕ → Bool → Keyboard
handle_normal k code is_break =
    if (code == 0x2A) || (code == 0x36)
    then push_key (record k { shift_held = not is_break })
        (if code == 0x2A then key_lshift else key_rshift)
    else if code == 0x1D
    then record k { ctrl_held = not is_break }
    else if code == 0x38
    then record k { alt_held = not is_break }
    else if code == 0x3A
    then (if is_break then k else record k { capslock = not k.capslock })
    else if code == 0x45
    then (if is_break then k else record k { numlock = not k.numlock })
    else if code == 0x46
    then (if is_break then k else record k { scrolllock = not k.scrolllock })
    else push_if k (normal_key k code is_break)

-- What the second `switch` of `handle_extended` pushes.
unfoldable pub extended_key : ℕ → Option ℕ
extended_key code =
    if code == 0x48
    then some key_up
    else if code == 0x50
    then some key_down
    else if code == 0x4B
    then some key_left
    else if code == 0x4D
    then some key_right
    else if code == 0x47
    then some key_home
    else if code == 0x4F
    then some key_end
    else if code == 0x49
    then some key_page_up
    else if code == 0x51
    then some key_page_down
    else if code == 0x52
    then some key_insert
    else if code == 0x53
    then some key_delete
    else if code == 0x5B
    then some key_lgui
    else if code == 0x5C
    then some key_rgui
    else if code == 0x5D
    then some key_menu
    else if code == 0x37
    then some key_printscreen
    else none

unfoldable pub handle_extended : Keyboard → ℕ → Bool → Keyboard
handle_extended k code is_break =
    if code == 0x1D
    then record k { ctrl_held = not is_break }
    else if code == 0x38
    then record k { alt_held = not is_break }
    else if code == 0x1C
    then (if is_break then k else push_key k key_numpad_enter)
    else if code == 0x35
    then (if is_break then k else push_key k key_numpad_slash)
    else if is_break
    then k
    else if (code == 0x5B) || (code == 0x5C)
    then push_if (record k { gui_held = true }) (extended_key code)
    else push_if k (extended_key code)

-- The last part of `keyboard_handle_irq`.
unfoldable pub handle_code : Keyboard → ℕ → Keyboard
handle_code k sc =
    let k' = record k { extended = false } in
    if k.extended
    then handle_extended k' (sc % 0x80) (leb 0x80 sc)
    else handle_normal k' (sc % 0x80) (leb 0x80 sc)

unfoldable pub handle_irq : Keyboard → ℕ → Keyboard
handle_irq k sc =
    if ltb 0 k.pause_left
    then (let k' = record k { pause_left = k.pause_left - 1 } in
        if k.pause_left == 1 then push_key k' key_pause else k')
    else if sc == 0xE1
    then record k { pause_left = 5 }
    else if sc == 0xE0
    then record k { extended = true }
    else handle_code k sc

unfoldable pub handle_irqs : Keyboard → List ℕ → Keyboard
handle_irqs k [] = k
handle_irqs k (sc ∷ scs) = handle_irqs (handle_irq k sc) scs

-- `keycode_to_ascii`
unfoldable pub keycode_to_ascii : ℕ → ℕ
keycode_to_ascii k =
    if ltb k key_special_base
    then k
    else if leb key_numpad_0 k && leb k key_numpad_9
    then b'0' + (k - key_numpad_0)
    else if k == key_numpad_dot
    then b'.'
    else if k == key_numpad_plus
    then b'+'
    else if k == key_numpad_minus
    then b'-'
    else if k == key_numpad_star
    then b'*'
    else if k == key_numpad_slash
    then b'/'
    else if k == key_numpad_enter
    then 10
    else 0
