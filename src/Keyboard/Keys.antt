-- ===== src/Keyboard/Keys.antt =====
-- Which keys the driver produces: checked at every scan code and every setting of the flags.
use innovati_os.Base.{
  ℕ, ◌-◌, ◌<◌, ◌≡◌, refl, Bool, true, false, ◌&&◌, Option, none, some, ◌==◌, ltb, if◌then◌else◌,
  get_or, arith, holds_below, holds_below_sound, ==_iff,
}
use mathlib.Core.Bool.{xor}
use innovati_os.Keyboard.{
  Keyboard, is_lower, with_ctrl, translate, numpad_key, normal_key, extended_key,
}
use innovati_os.Keyboard.Codes.{
  scancode_ascii, scancode_ascii_shift, numpad_ascii, numpad_nav, key_limit,
}

both : (Bool → Bool) → Bool
both q = q true && q false

both_sound : (q : Bool → Bool) (b : Bool) → both q ≡ true → q b ≡ true
unfolding both
both_sound q true h = ground arith
both_sound q false h = ground arith

-- `p` holds of all settings of four flags, at all codes below 128.
all_flags : (Bool → Bool → Bool → Bool → ℕ → Bool) → Bool
all_flags p = both (λ a. both (λ b. both (λ c. both (λ d. holds_below 128 (p a b c d)))))

all_flags_sound :
    (p : Bool → Bool → Bool → Bool → ℕ → Bool)
    → all_flags p ≡ true
    → (a b c d : Bool) (code : ℕ) → code < 128
    → p a b c d code ≡ true
unfolding all_flags
all_flags_sound p h a b c d code lt =
    holds_below_sound 128 (p a b c d) code
      (both_sound (λ d. holds_below 128 (p a b c d)) d
        (both_sound (λ c. both (λ d. holds_below 128 (p a b c d))) c
          (both_sound (λ b. both (λ c. both (λ d. holds_below 128 (p a b c d)))) b
            (both_sound (λ a. both (λ b. both (λ c. both (λ d. holds_below 128 (p a b c d))))) a
              h))))
      lt

-- A keyboard with the given flags; the functions below read no other field.
flags : Bool → Bool → Bool → Bool → Keyboard
flags shift ctrl caps num = record {
  ring = record { buf = λ _. 0; head = 0; tail = 0 };
  shift_held = shift;
  ctrl_held = ctrl;
  alt_held = false;
  gui_held = false;
  capslock = caps;
  numlock = num;
  scrolllock = false;
  extended = false;
  pause_left = 0;
}

-- The character of a code: Ctrl turns a letter into its control character; otherwise a letter is a
-- capital if exactly one of Shift and Caps Lock is on; for any other key Shift alone decides.
abbrev pub char_of : Bool → Bool → Bool → ℕ → ℕ → ℕ
char_of shift ctrl caps base shifted =
    if is_lower base
    then (if ctrl then base - 96 else if xor shift caps then base - 32 else base)
    else (if base == 0 then 0 else if shift then shifted else base)

char_law : Bool → Bool → Bool → Bool → ℕ → Bool
char_law shift ctrl caps num code =
    translate (flags shift ctrl caps num) code
    == char_of shift ctrl caps (get_or scancode_ascii code 0) (get_or scancode_ascii_shift code 0)

char_table : all_flags char_law ≡ true
unfolding all_flags both holds_below char_law flags translate with_ctrl scancode_ascii
    scancode_ascii_shift xor
char_table = refl

-- For every state and every code below 128, translate_normal_key gives the character that the two
-- tables name: Ctrl turns a letter into its control character, otherwise a letter is a capital if
-- exactly one of Shift and Caps Lock is on, and for any other key Shift alone decides.
pub translate_lem :
    (k : Keyboard) (code : ℕ)
    → code < 128
    → translate k code
      ≡ char_of k.shift_held k.ctrl_held k.capslock
          (get_or scancode_ascii code 0)
          (get_or scancode_ascii_shift code 0)
unfolding char_law flags translate
translate_lem k code lt =
    (==_iff _ _).0
      (all_flags_sound char_law char_table k.shift_held k.ctrl_held k.capslock k.numlock code lt)

-- Nothing, or a code of the enumeration or an ASCII character other than NUL.
valid_key : Option ℕ → Bool
valid_key none = true
valid_key (some x) = ltb 0 x && ltb x key_limit

key_law : Bool → Bool → Bool → Bool → ℕ → Bool
key_law shift ctrl caps num code =
    valid_key (normal_key (flags shift ctrl caps num) code false)
    && valid_key (normal_key (flags shift ctrl caps num) code true)
    && valid_key (extended_key code)

key_table : all_flags key_law ≡ true
unfolding all_flags both holds_below key_law valid_key flags normal_key numpad_key extended_key
    translate with_ctrl scancode_ascii scancode_ascii_shift numpad_ascii numpad_nav xor
key_table = refl

normal_key-flags :
    (k : Keyboard) (code : ℕ) (b : Bool)
    → normal_key (flags k.shift_held k.ctrl_held k.capslock k.numlock) code b ≡ normal_key k code b
unfolding flags normal_key translate numpad_key
normal_key-flags k code b = refl

valid_key_lem : (o : Option ℕ) {x : ℕ} → valid_key o ≡ true → o ≡ some x → (0 < x) × (x < key_limit)
unfolding valid_key
valid_key_lem none h e = absurd (ground arith)
valid_key_lem (some y) h e = ground arith

-- The keys that the driver pushes for a scan code.
pub normal_key-valid :
    (k : Keyboard) (code : ℕ) (b : Bool) {x : ℕ}
    → code < 128
    → normal_key k code b ≡ some x
    → (0 < x) × (x < key_limit)
unfolding key_law
normal_key-valid k code b {x} lt e = valid_key_lem (normal_key k code b) (known b) e
  where
    law : key_law k.shift_held k.ctrl_held k.capslock k.numlock code ≡ true
    law = all_flags_sound key_law key_table k.shift_held k.ctrl_held k.capslock k.numlock code lt

    known : (b : Bool) → valid_key (normal_key k code b) ≡ true
    known true = ground (arith, law, normal_key-flags k code true)
    known false = ground (arith, law, normal_key-flags k code false)

pub extended_key-valid :
    (code : ℕ) {x : ℕ} → code < 128 → extended_key code ≡ some x → (0 < x) × (x < key_limit)
unfolding key_law
extended_key-valid code lt e =
    let law = all_flags_sound key_law key_table false false false false code lt in
    valid_key_lem (extended_key code) (ground (arith, law)) e

-- A release pushes nothing.
pub normal_key-release : (k : Keyboard) (code : ℕ) → normal_key k code true ≡ none
unfolding normal_key
normal_key-release k code = ground arith
