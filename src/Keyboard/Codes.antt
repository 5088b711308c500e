-- ===== src/Keyboard/Codes.antt =====
-- Key codes and the scan code tables: the enumeration of
-- kernel/include/kernel/drivers/keyboard.h and the arrays of kernel/src/drivers/keyboard.c.
use innovati_os.Base.{ℕ, List, [], ◌∷◌}

-- Codes from here on stand for keys without a character; the enumeration counts up from it.
abbrev pub key_special_base : ℕ
key_special_base = 0x0100

abbrev pub key_up : ℕ
key_up = 256

abbrev pub key_down : ℕ
key_down = 257

abbrev pub key_left : ℕ
key_left = 258

abbrev pub key_right : ℕ
key_right = 259

abbrev pub key_home : ℕ
key_home = 260

abbrev pub key_end : ℕ
key_end = 261

abbrev pub key_page_up : ℕ
key_page_up = 262

abbrev pub key_page_down : ℕ
key_page_down = 263

abbrev pub key_insert : ℕ
key_insert = 264

abbrev pub key_delete : ℕ
key_delete = 265

abbrev pub key_f1 : ℕ
key_f1 = 266

abbrev pub key_f11 : ℕ
key_f11 = 276

abbrev pub key_f12 : ℕ
key_f12 = 277

abbrev pub key_lshift : ℕ
key_lshift = 282

abbrev pub key_rshift : ℕ
key_rshift = 283

abbrev pub key_lgui : ℕ
key_lgui = 284

abbrev pub key_rgui : ℕ
key_rgui = 285

abbrev pub key_menu : ℕ
key_menu = 286

abbrev pub key_printscreen : ℕ
key_printscreen = 290

abbrev pub key_pause : ℕ
key_pause = 291

abbrev pub key_numpad_0 : ℕ
key_numpad_0 = 292

abbrev pub key_numpad_9 : ℕ
key_numpad_9 = 301

abbrev pub key_numpad_dot : ℕ
key_numpad_dot = 302

abbrev pub key_numpad_plus : ℕ
key_numpad_plus = 303

abbrev pub key_numpad_minus : ℕ
key_numpad_minus = 304

abbrev pub key_numpad_star : ℕ
key_numpad_star = 305

abbrev pub key_numpad_slash : ℕ
key_numpad_slash = 306

abbrev pub key_numpad_enter : ℕ
key_numpad_enter = 307

-- One past the last code of the enumeration.
abbrev pub key_limit : ℕ
key_limit = 308

unfoldable pub scancode_ascii : List ℕ
scancode_ascii =
    0 ∷ 27 ∷ 49 ∷ 50 ∷ 51 ∷ 52 ∷ 53 ∷ 54 ∷ 55 ∷ 56 ∷ 57 ∷ 48 ∷ 45 ∷ 61 ∷ 8 ∷ 9 ∷ 113 ∷ 119 ∷ 101
    ∷ 114 ∷ 116 ∷ 121 ∷ 117 ∷ 105 ∷ 111 ∷ 112 ∷ 91 ∷ 93 ∷ 10 ∷ 0 ∷ 97 ∷ 115 ∷ 100 ∷ 102 ∷ 103 ∷ 104
    ∷ 106 ∷ 107 ∷ 108 ∷ 59 ∷ 39 ∷ 96 ∷ 0 ∷ 92 ∷ 122 ∷ 120 ∷ 99 ∷ 118 ∷ 98 ∷ 110 ∷ 109 ∷ 44 ∷ 46 ∷ 47
    ∷ 0 ∷ 42 ∷ 0 ∷ 32 ∷ 0 ∷ 0 ∷ 0 ∷ 0 ∷ 0 ∷ 0 ∷ 0 ∷ 0 ∷ 0 ∷ 0 ∷ 0 ∷ 0 ∷ 0 ∷ 0 ∷ 0 ∷ 0 ∷ 0 ∷ 0 ∷ 0
    ∷ 0 ∷ 0 ∷ 0 ∷ 0 ∷ 0 ∷ 0 ∷ 0 ∷ 0 ∷ 0 ∷ 0 ∷ 0 ∷ 0 ∷ 0 ∷ 0 ∷ 0 ∷ 0 ∷ 0 ∷ 0 ∷ 0 ∷ 0 ∷ 0 ∷ 0 ∷ 0 ∷ 0
    ∷ 0 ∷ 0 ∷ 0 ∷ 0 ∷ 0 ∷ 0 ∷ 0 ∷ 0 ∷ 0 ∷ 0 ∷ 0 ∷ 0 ∷ 0 ∷ 0 ∷ 0 ∷ 0 ∷ 0 ∷ 0 ∷ 0 ∷ 0 ∷ 0 ∷ 0 ∷ 0 ∷ 0
    ∷ 0 ∷ 0 ∷ 0 ∷ []

unfoldable pub scancode_ascii_shift : List ℕ
scancode_ascii_shift =
    0 ∷ 27 ∷ 33 ∷ 64 ∷ 35 ∷ 36 ∷ 37 ∷ 94 ∷ 38 ∷ 42 ∷ 40 ∷ 41 ∷ 95 ∷ 43 ∷ 8 ∷ 9 ∷ 81 ∷ 87 ∷ 69 ∷ 82
    ∷ 84 ∷ 89 ∷ 85 ∷ 73 ∷ 79 ∷ 80 ∷ 123 ∷ 125 ∷ 10 ∷ 0 ∷ 65 ∷ 83 ∷ 68 ∷ 70 ∷ 71 ∷ 72 ∷ 74 ∷ 75 ∷ 76
    ∷ 58 ∷ 34 ∷ 126 ∷ 0 ∷ 124 ∷ 90 ∷ 88 ∷ 67 ∷ 86 ∷ 66 ∷ 78 ∷ 77 ∷ 60 ∷ 62 ∷ 63 ∷ 0 ∷ 42 ∷ 0 ∷ 32
    ∷ 0 ∷ 0 ∷ 0 ∷ 0 ∷ 0 ∷ 0 ∷ 0 ∷ 0 ∷ 0 ∷ 0 ∷ 0 ∷ 0 ∷ 0 ∷ 0 ∷ 0 ∷ 0 ∷ 0 ∷ 0 ∷ 0 ∷ 0 ∷ 0 ∷ 0 ∷ 0 ∷ 0
    ∷ 0 ∷ 0 ∷ 0 ∷ 0 ∷ 0 ∷ 0 ∷ 0 ∷ 0 ∷ 0 ∷ 0 ∷ 0 ∷ 0 ∷ 0 ∷ 0 ∷ 0 ∷ 0 ∷ 0 ∷ 0 ∷ 0 ∷ 0 ∷ 0 ∷ 0 ∷ 0 ∷ 0
    ∷ 0 ∷ 0 ∷ 0 ∷ 0 ∷ 0 ∷ 0 ∷ 0 ∷ 0 ∷ 0 ∷ 0 ∷ 0 ∷ 0 ∷ 0 ∷ 0 ∷ 0 ∷ 0 ∷ 0 ∷ 0 ∷ 0 ∷ 0 ∷ 0 ∷ 0 ∷ []

unfoldable pub numpad_ascii : List ℕ
numpad_ascii = 55 ∷ 56 ∷ 57 ∷ 45 ∷ 52 ∷ 53 ∷ 54 ∷ 43 ∷ 49 ∷ 50 ∷ 51 ∷ 48 ∷ 46 ∷ []

unfoldable pub numpad_nav : List ℕ
numpad_nav =
    key_home ∷ key_up ∷ key_page_up ∷ 0 ∷ key_left ∷ 0 ∷ key_right ∷ 0 ∷ key_end ∷ key_down
    ∷ key_page_down ∷ key_insert ∷ key_delete ∷ []
