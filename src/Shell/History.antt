-- ===== src/Shell/History.antt =====
-- The history of the shell: a ring of the last 16 command lines.
pub mod Last
use innovati_os.Base.{
  ℕ, zero, suc, ◌+◌, ◌-◌, ◌%◌, Bool, true, false, not, ◌&&◌, ◌||◌, Option, none, some, List, [],
  ◌∷◌, ◌==◌, ltb, leb, if◌then◌else◌, update, u32,
}
use innovati_os.Vfs.{Str}
use innovati_os.Shell.Text.{
  cmd_buf_max, name_max, value_max, sh_copy, sh_streq, sh_contains, split_two_words,
}
use innovati_os.Shell.Number.{is_empty}

abbrev pub history_size : ℕ
history_size = 16

pub record History : Type 0 where
  pub history_buf : ℕ → Str
  pub history_count : ℕ

unfoldable pub history_add : History → Str → History
history_add h cmd = record {
  history_buf = update h.history_buf (h.history_count % history_size) (sh_copy cmd cmd_buf_max);
  history_count = u32 (h.history_count + 1);
}

-- `!!` in `shell_run`: the last line, if there is one.
unfoldable pub last_line : History → Option Str
last_line h =
    if h.history_count == 0
    then none
    else some (sh_copy (h.history_buf ((h.history_count - 1) % history_size)) cmd_buf_max)

-- The loop of `cmd_history`, with `left` lines to go: the numbers and the lines that it prints.
unfoldable pub show_from : (Str → Bool) → History → ℕ → ℕ → List (ℕ × Str)
show_from shows h zero i = []
show_from shows h (suc left) i =
    let line = h.history_buf (i % history_size) in
    let rest = show_from shows h left (i + 1) in if shows line then (i + 1, line) ∷ rest else rest

abbrev pub history_start : History → ℕ
history_start h = if ltb history_size h.history_count then h.history_count - history_size else 0

unfoldable pub show_history : (Str → Bool) → History → List (ℕ × Str)
show_history shows h = show_from shows h (h.history_count - history_start h) (history_start h)

-- What `cmd_history` prints: one of its messages, or numbered lines.
pub data Listing : Type 0 where
  cleared : Listing
  usage : Listing
  nothing : Listing
  lines : List (ℕ × Str) → Listing

unfoldable pub cmd_history : History → Str → History × Listing
cmd_history h args =
    let (sub, term) = split_two_words args name_max value_max in
    let filter = sh_streq sub (b'f' ∷ b'i' ∷ b'n' ∷ b'd' ∷ []) in
    if sh_streq args (b'c' ∷ b'l' ∷ b'e' ∷ b'a' ∷ b'r' ∷ [])
    then (record h { history_count = 0 }, Listing.cleared)
    else if filter && is_empty term
    then (h, Listing.usage)
    else if h.history_count == 0
    then (h, Listing.nothing)
    else (h, Listing.lines (show_history (λ line. not filter || sh_contains line term) h))
