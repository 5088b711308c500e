-- ===== src/Shell/Settings.antt =====
-- The settings of the shell and the message of the day, and what of the state a user's file holds.
use innovati_os.Base.{ℕ, ◌*◌, Bool, true, false, Option, none, some, [], ◌∷◌, ◌==◌, if◌then◌else◌}
use innovati_os.Vfs.{Str}
use innovati_os.Shell.Text.{name_max, value_max, sh_copy, sh_streq, split_two_words}
use innovati_os.Shell.Number.{is_empty}
use innovati_os.Shell.Table.{Table}
use innovati_os.Shell.Theme.{Theme}

abbrev on_word : Str
on_word = b'o' ∷ b'n' ∷ []

abbrev off_word : Str
off_word = b'o' ∷ b'f' ∷ b'f' ∷ []

abbrev prompt_word : Str
prompt_word = b'p' ∷ b'r' ∷ b'o' ∷ b'm' ∷ b'p' ∷ b't' ∷ []

abbrev counter_word : Str
counter_word = b'c' ∷ b'o' ∷ b'u' ∷ b'n' ∷ b't' ∷ b'e' ∷ b'r' ∷ []

abbrev suggestions_word : Str
suggestions_word = b's' ∷ b'u' ∷ b'g' ∷ b'g' ∷ b'e' ∷ b's' ∷ b't' ∷ b'i' ∷ b'o' ∷ b'n' ∷ b's' ∷ []

abbrev bracket_word : Str
bracket_word = b'b' ∷ b'r' ∷ b'a' ∷ b'c' ∷ b'k' ∷ b'e' ∷ b't' ∷ []

abbrev arrow_word : Str
arrow_word = b'a' ∷ b'r' ∷ b'r' ∷ b'o' ∷ b'w' ∷ []

abbrev minimal_word : Str
minimal_word = b'm' ∷ b'i' ∷ b'n' ∷ b'i' ∷ b'm' ∷ b'a' ∷ b'l' ∷ []

abbrev reset_word : Str
reset_word = b'r' ∷ b'e' ∷ b's' ∷ b'e' ∷ b't' ∷ []

abbrev set_word : Str
set_word = b's' ∷ b'e' ∷ b't' ∷ []

-- `shell_settings_t`
pub record Settings : Type 0 where
  pub show_counter : Bool
  pub show_suggestions : Bool
  pub prompt_style : ℕ

-- The values that are shown, `OK.`, or the two messages about errors.
pub data Answer : Type 0 where
  shown : Answer
  ok : Answer
  usage : Answer
  unknown_setting : Answer

unfoldable pub style_of : Str → Option ℕ
style_of val =
    if sh_streq val bracket_word
    then some 0
    else if sh_streq val arrow_word
    then some 1
    else if sh_streq val minimal_word
    then some 2
    else none

unfoldable pub want_on : Str → Option Bool
want_on val =
    if sh_streq val on_word then some true else if sh_streq val off_word then some false else none

abbrev pub set_prompt : Settings → Option ℕ → Settings × Answer
set_prompt s none = (s, Answer.usage)
set_prompt s (some style) = (record s { prompt_style = style }, Answer.ok)

abbrev pub set_switch : Settings → Str → Option Bool → Settings × Answer
set_switch s key none = (s, Answer.usage)
set_switch s key (some want) =
    if sh_streq key counter_word
    then (record s { show_counter = want }, Answer.ok)
    else if sh_streq key suggestions_word
    then (record s { show_suggestions = want }, Answer.ok)
    else (s, Answer.unknown_setting)

unfoldable pub cmd_set : Settings → Str → Settings × Answer
cmd_set s args =
    let (key, val) = split_two_words args name_max value_max in
    if is_empty args
    then (s, Answer.shown)
    else if sh_streq key prompt_word
    then set_prompt s (style_of val)
    else set_switch s key (want_on val)

-- `g_custom_motd` and `g_custom_motd_set`
pub record Motd : Type 0 where
  pub custom_motd : Str
  pub custom_motd_set : Bool

unfoldable pub cmd_motd : Motd → Str → Motd × Answer
cmd_motd m args =
    let (sub, rest) = split_two_words args name_max value_max in
    if is_empty args
    then (m, Answer.shown)
    else if sh_streq sub reset_word
    then (record { custom_motd = []; custom_motd_set = false }, Answer.ok)
    else if sh_streq sub set_word
    then if is_empty rest then (m, Answer.usage) else (
      record { custom_motd = sh_copy rest (value_max * 2); custom_motd_set = true },
      Answer.ok,
    )
    else (m, Answer.usage)

-- `shell_state_t` behind its magic, and the globals that it copies.
pub record ShellState : Type 0 where
  pub settings : Settings
  pub aliases : Table
  pub vars : Table
  pub themes : ℕ → Theme
  pub active_theme : Option ℕ
  pub motd : Motd

-- The contents of the file: the magic and the state.
pub record Saved : Type 0 where
  pub magic : ℕ
  pub state : ShellState

unfoldable pub shell_save_state : ShellState → Saved
shell_save_state s = record { magic = 0x53484C4C; state = s }

-- `file` is what `vfs_open` and `vfs_read` give: nothing when there is no file, or a short one.
unfoldable pub shell_load_state : Option Saved → ShellState → ShellState
shell_load_state none s = s
shell_load_state (some file) s = if file.magic == 0x53484C4C then file.state else s
