-- ===== src/Shell/Theme.antt =====
-- The prompt themes of the shell, and its settings.
--
-- The value -1 of a color, which stands for the color of the user, is `none`, and so is the index -1
-- of the active theme.
pub mod Safe
use innovati_os.Base.{
  ℕ, zero, suc, ◌+◌, Bool, true, false, not, ◌&&◌, ◌||◌, Option, none, some, List, [], ◌∷◌, ◌==◌,
  if◌then◌else◌, update, find_slot,
}
use innovati_os.Vfs.{Str}
use innovati_os.Console.{color_white}
use innovati_os.Shell.Text.{name_max, value_max, sh_copy, sh_streq, split_two_words}
use innovati_os.Shell.Number.{is_empty}

abbrev pub color_green : ℕ
color_green = 0x0000FF88

abbrev pub color_red : ℕ
color_red = 0x00FF4444

abbrev pub color_cyan : ℕ
color_cyan = 0x0066D9EF

-- `MAX_THEMES`
abbrev pub max_themes : ℕ
max_themes = 12

-- `theme_t`
pub record Theme : Type 0 where
  pub name : Str
  pub user_color : Option ℕ
  pub at_color : ℕ
  pub symbol_color : Option ℕ
  pub symbol : ℕ
  pub used : Bool
  pub builtin : Bool

-- `g_themes`, `g_active_theme` and `g_themes_ready`
pub record Themes : Type 0 where
  pub table : ℕ → Theme
  pub active : Option ℕ
  pub ready : Bool

-- What the command prints: the status, the list, `OK.` or a message about an error.
pub data Said : Type 0 where
  status : Said
  listing : Said
  done : Said
  unknown : Said
  is_builtin : Said
  wrong_usage : Said
  no_room : Said

abbrev pub named : Str → Theme → Bool
named name t = t.used && sh_streq t.name name

abbrev pub unused : Theme → Bool
unused t = not t.used

unfoldable pub theme_find : (ℕ → Theme) → Str → Option ℕ
theme_find table name = find_slot (named name) table max_themes 0

-- The slot that `theme_register` takes: the theme's own, or else the first free one.
unfoldable pub register_slot : (ℕ → Theme) → Str → Option ℕ
register_slot table name = elim (theme_find table name) [
  | some i ↦ some i
  | none ↦ find_slot unused table max_themes 0
]

unfoldable pub theme_register :
    (ℕ → Theme) → Str → Option ℕ → ℕ → Option ℕ → ℕ → Bool → (ℕ → Theme) × Option ℕ
theme_register table name uc ac sc sym builtin = elim (register_slot table name) [
  | none ↦ (table, none)
  | some i ↦ (
    update table i (record {
      name = sh_copy name name_max;
      user_color = uc;
      at_color = ac;
      symbol_color = sc;
      symbol = sym;
      used = true;
      builtin = builtin;
    }),
    some i,
  )
]

abbrev default_name : Str
default_name = b'd' ∷ b'e' ∷ b'f' ∷ b'a' ∷ b'u' ∷ b'l' ∷ b't' ∷ []

abbrev red_name : Str
red_name = b'r' ∷ b'e' ∷ b'd' ∷ []

abbrev green_name : Str
green_name = b'g' ∷ b'r' ∷ b'e' ∷ b'e' ∷ b'n' ∷ []

abbrev cyan_name : Str
cyan_name = b'c' ∷ b'y' ∷ b'a' ∷ b'n' ∷ []

abbrev white_name : Str
white_name = b'w' ∷ b'h' ∷ b'i' ∷ b't' ∷ b'e' ∷ []

abbrev matrix_name : Str
matrix_name = b'm' ∷ b'a' ∷ b't' ∷ b'r' ∷ b'i' ∷ b'x' ∷ []

abbrev fire_name : Str
fire_name = b'f' ∷ b'i' ∷ b'r' ∷ b'e' ∷ []

abbrev ice_name : Str
ice_name = b'i' ∷ b'c' ∷ b'e' ∷ []

abbrev ghost_name : Str
ghost_name = b'g' ∷ b'h' ∷ b'o' ∷ b's' ∷ b't' ∷ []

abbrev royal_name : Str
royal_name = b'r' ∷ b'o' ∷ b'y' ∷ b'a' ∷ b'l' ∷ []

abbrev candy_name : Str
candy_name = b'c' ∷ b'a' ∷ b'n' ∷ b'd' ∷ b'y' ∷ []

unfoldable pub add_theme : (ℕ → Theme) → Str → Option ℕ → ℕ → Option ℕ → ℕ → ℕ → Theme
add_theme table name uc ac sc sym = (theme_register table name uc ac sc sym true).0

-- The calls of `shell_init_themes`, in their order.
unfoldable pub add_builtin_themes : (ℕ → Theme) → ℕ → Theme
add_builtin_themes table =
    let t1 : ℕ → Theme = add_theme table default_name none color_white none 0 in
    let t2 : ℕ → Theme = add_theme t1 red_name (some color_red) color_white (some color_red) 0 in
    let t3 : ℕ → Theme =
      add_theme t2 green_name (some color_green) color_white (some color_green) 0 in
    let t4 : ℕ → Theme = add_theme t3 cyan_name (some color_cyan) color_white (some color_cyan) 0 in
    let t5 : ℕ → Theme =
      add_theme t4 white_name (some color_white) color_white (some color_white) 0 in
    let t6 : ℕ → Theme =
      add_theme t5 matrix_name (some color_green) color_green (some color_green) b'>' in
    let t7 : ℕ → Theme =
      add_theme t6 fire_name (some color_red) color_red (some color_white) b'>' in
    let t8 : ℕ → Theme =
      add_theme t7 ice_name (some color_cyan) color_cyan (some color_white) b'>' in
    let t9 : ℕ → Theme =
      add_theme t8 ghost_name (some color_white) color_white (some color_white) b'~' in
    let t10 : ℕ → Theme =
      add_theme t9 royal_name (some color_cyan) color_red (some color_white) b'#' in
    add_theme t10 candy_name (some color_white) color_red (some color_cyan) b'*'

unfoldable pub shell_init_themes : Themes → Themes
shell_init_themes s =
    if s.ready then s else record s { table = add_builtin_themes s.table; ready = true }

unfoldable pub color_from_name : Str → Option ℕ
color_from_name s =
    if sh_streq s red_name
    then some color_red
    else if sh_streq s green_name
    then some color_green
    else if sh_streq s cyan_name
    then some color_cyan
    else if sh_streq s white_name
    then some color_white
    else none

abbrev pub status_word : Str
status_word = b's' ∷ b't' ∷ b'a' ∷ b't' ∷ b'u' ∷ b's' ∷ []

abbrev pub list_word : Str
list_word = b'l' ∷ b'i' ∷ b's' ∷ b't' ∷ []

abbrev pub reset_word : Str
reset_word = b'r' ∷ b'e' ∷ b's' ∷ b'e' ∷ b't' ∷ []

abbrev pub delete_word : Str
delete_word = b'd' ∷ b'e' ∷ b'l' ∷ b'e' ∷ b't' ∷ b'e' ∷ []

abbrev pub save_word : Str
save_word = b's' ∷ b'a' ∷ b'v' ∷ b'e' ∷ []

-- `if (g_active_theme == idx) g_active_theme = -1`
abbrev pub still_active : Option ℕ → ℕ → Option ℕ
still_active none i = none
still_active (some a) i = if a == i then none else some a

-- `theme delete`
unfoldable pub theme_delete : Themes → Str → Themes × Said
theme_delete s name = elim (theme_find s.table name) [
  | none ↦ (s, Said.unknown)
  | some i ↦ if (s.table i).builtin then (s, Said.is_builtin) else (
    record s {
      table = update s.table i (record (s.table i) { used = false });
      active = elim s.active [ none ↦ none | some a ↦ if a == i then none else some a ];
    },
    Said.done,
  )
]

-- `theme save`, behind the two calls of `split_two_words`: `g_themes[existing].builtin`, and the
-- registration.
unfoldable pub saves_builtin : (ℕ → Theme) → Str → Bool
saves_builtin table name = elim (theme_find table name) [
  | none ↦ false
  | some i ↦ (table i).builtin
]

abbrev pub first_char : Str → ℕ
first_char [] = 0
first_char (c ∷ s) = c

unfoldable pub theme_save_as : Themes → Str → ℕ → ℕ → Themes × Said
theme_save_as s name color sym =
    if saves_builtin s.table name
    then (s, Said.is_builtin)
    else let (table, slot) =
        theme_register s.table name (some color) color (some color) sym false in
      elim slot [ none ↦ (s, Said.no_room) | some i ↦ (record s { table = table }, Said.done) ]

abbrev pub theme_save_color : Themes → Str → Option ℕ → ℕ → Themes × Said
theme_save_color s name none sym = (s, Said.wrong_usage)
theme_save_color s name (some color) sym =
    if is_empty name then (s, Said.wrong_usage) else theme_save_as s name color sym

unfoldable pub theme_save : Themes → Str → Themes × Said
theme_save s rest =
    let (name, color_and_sym) = split_two_words rest name_max value_max in
    let (color_str, symbol_str) = split_two_words color_and_sym name_max name_max in
    theme_save_color s name (color_from_name color_str) (first_char symbol_str)

-- `theme` with the name of a theme
unfoldable pub theme_select : Themes → Str → Themes × Said
theme_select s name = elim (theme_find s.table name) [
  | none ↦ (s, Said.unknown)
  | some i ↦ (record s { active = some i }, Said.done)
]

unfoldable pub theme_command : Themes → Str → Str → Themes × Said
theme_command s sub rest =
    if sh_streq sub list_word
    then (s, Said.listing)
    else if sh_streq sub reset_word
    then (record s { active = none }, Said.done)
    else if sh_streq sub delete_word
    then theme_delete s rest
    else if sh_streq sub save_word
    then theme_save s rest
    else theme_select s sub

unfoldable pub cmd_theme : Themes → Str → Themes × Said
cmd_theme s0 args =
    let s : Themes = shell_init_themes s0 in
    let (sub, rest) = split_two_words args name_max value_max in
    if is_empty args || sh_streq args status_word
    then (s, Said.status)
    else theme_command s sub rest
