-- ===== src/Console.antt =====
-- The text console, kernel/src/drivers/console.c: a screen of cells with a cursor.
--
-- The functions also draw what they write on the frame buffer, from the cells that are modelled
-- here; the pixels are not part of the state. The size of the frame buffer in characters is an
-- argument of `console_init`. The keys that `console_readline` reads are a list, and `none` says
-- that the loop still waits at its end.
pub mod Cells
pub mod Cursor
pub mod Line
mod Tests
use innovati_os.Base.{
  ℕ, zero, suc, ◌+◌, ◌-◌, ◌%◌, Bool, true, false, not, ◌&&◌, Option, none, some, List, [], ◌∷◌,
  ◌==◌, ltb, leb, if◌then◌else◌, update, sub64,
}
use innovati_os.Strings.{Bytes, k_memset}

abbrev pub max_cols : ℕ
max_cols = 240

abbrev pub max_rows : ℕ
max_rows = 67

-- `CON_COLOR_WHITE`
abbrev pub color_white : ℕ
color_white = 0x00E0E0E0

-- `CON_COLOR_BG`
abbrev pub color_bg : ℕ
color_bg = 0x00101014

abbrev pub space : ℕ
space = 32

abbrev pub newline : ℕ
newline = 10

abbrev pub backspace : ℕ
backspace = 8

abbrev pub tab : ℕ
tab = 9

-- `cell_t`
pub record Cell : Type 0 where
  pub ch : ℕ
  pub fg : ℕ
  pub bg : ℕ

-- By row and column.
abbrev pub Cells : Type 0
Cells = ℕ → ℕ → Cell

pub record Console : Type 0 where
  pub cols : ℕ
  pub rows : ℕ
  pub cur_col : ℕ
  pub cur_row : ℕ
  pub fg : ℕ
  pub bg : ℕ
  pub cells : Cells

abbrev pub cell : Console → ℕ → Cell
cell s c = record { ch = c; fg = s.fg; bg = s.bg }

unfoldable pub put_cell : Cells → ℕ → ℕ → Cell → Cells
put_cell m row col x r c = if (r == row) && (c == col) then x else m r c

-- The inner loop of `cells_clear` and the second loop of `scroll_up`: one row.
unfoldable pub clear_row : Console → Cells → ℕ → Cells
clear_row s m row r c = if (r == row) && ltb c s.cols then cell s space else m r c

-- The outer loop of `cells_clear`, with `left` rows to go.
unfoldable pub clear_rows : Console → Cells → ℕ → ℕ → Cells
clear_rows s m zero row = m
clear_rows s m (suc left) row = clear_rows s (clear_row s m row) left (row + 1)

unfoldable pub cells_clear : Console → Console
cells_clear s = record s { cells = clear_rows s s.cells s.rows 0 }

-- `k_memcpy(g_cells[r], g_cells[r + 1], g_cols * sizeof(cell_t))`
unfoldable pub copy_row : Console → Cells → ℕ → Cells
copy_row s m row r c = if (r == row) && ltb c s.cols then m (row + 1) c else m r c

-- The first loop of `scroll_up`, with `left` rows to go.
unfoldable pub copy_rows : Console → Cells → ℕ → ℕ → Cells
copy_rows s m zero row = m
copy_rows s m (suc left) row = copy_rows s (copy_row s m row) left (row + 1)

unfoldable pub scroll_up : Console → Console
scroll_up s =
    let last = sub64 s.rows 1 in record s { cells = clear_row s (copy_rows s s.cells last 0) last }

unfoldable pub console_init : ℕ → ℕ → Cells → Console
console_init width height m = cells_clear (record {
  cols = if ltb max_cols width then max_cols else width;
  rows = if ltb max_rows height then max_rows else height;
  cur_col = 0;
  cur_row = 0;
  fg = color_white;
  bg = color_bg;
  cells = m;
})

unfoldable pub console_set_color : Console → ℕ → ℕ → Console
console_set_color s fg bg = record s { fg = fg; bg = bg }

unfoldable pub console_set_cursor : Console → ℕ → ℕ → Console
console_set_cursor s col row = record s {
  cur_col = if ltb col s.cols then col else s.cur_col;
  cur_row = if ltb row s.rows then row else s.cur_row;
}

unfoldable pub console_clear : Console → Console
console_clear s = cells_clear (record s { cur_col = 0; cur_row = 0 })

-- To the start of the next line.
unfoldable pub next_line : Console → Console
next_line s =
    if leb s.rows (s.cur_row + 1)
    then scroll_up (record s { cur_col = 0; cur_row = sub64 s.rows 1 })
    else record s { cur_col = 0; cur_row = s.cur_row + 1 }

unfoldable pub put_backspace : Console → Console
put_backspace s =
    if ltb 0 s.cur_col
    then record s {
      cur_col = s.cur_col - 1;
      cells = put_cell s.cells s.cur_row (s.cur_col - 1) (cell s space);
    }
    else s

-- The end of `console_putc`, for a character that is written.
unfoldable pub put_here : Console → ℕ → Console
put_here s c = record s {
  cells = put_cell s.cells s.cur_row s.cur_col (cell s c);
  cur_col = s.cur_col + 1;
}

unfoldable pub put_plain : Console → ℕ → Console
put_plain s c = put_here (if leb s.cols s.cur_col then next_line s else s) c

-- The loop of the tab, with `left` spaces to go.
unfoldable pub put_spaces : Console → ℕ → Console
put_spaces s zero = s
put_spaces s (suc left) = put_spaces (put_plain s space) left

unfoldable pub console_putc : Console → ℕ → Console
console_putc s c =
    if c == newline
    then next_line s
    else if c == backspace
    then put_backspace s
    else if c == tab
    then put_spaces s (4 - s.cur_col % 4)
    else put_plain s c

unfoldable pub console_puts : Console → List ℕ → Console
console_puts s [] = s
console_puts s (c ∷ text) = console_puts (console_putc s c) text

unfoldable pub console_puts_color : Console → List ℕ → ℕ → Console
console_puts_color s text fg = record (console_puts (record s { fg = fg }) text) { fg = old_fg }
  where
    old_fg : ℕ
    old_fg = s.fg

-- A line that is being read: the console, the buffer and `pos`.
pub record Reading : Type 0 where
  pub console : Console
  pub buf : Bytes
  pub pos : ℕ

abbrev pub echo : ℕ → ℕ → ℕ
echo echo_mask c = if echo_mask == 0 then c else echo_mask

-- The body of the loop of `console_readline` for a key other than the end of the line. The
-- buffer's addresses begin at 0. A `char` of 128 and above is negative.
unfoldable pub read_step : ℕ → ℕ → Reading → ℕ → Reading
read_step len echo_mask r c =
    if c == backspace
    then (if ltb 0 r.pos
        then record {
          console = console_putc r.console backspace;
          buf = update r.buf (r.pos - 1) 0;
          pos = r.pos - 1;
        }
        else r)
    else if ltb r.pos (sub64 len 1) && (leb space c && ltb c 128)
    then record {
      console = console_putc r.console (echo echo_mask c);
      buf = update r.buf r.pos c;
      pos = r.pos + 1;
    }
    else r

unfoldable pub read_loop : ℕ → ℕ → Reading → List ℕ → Option Reading
read_loop len echo_mask r [] = none
read_loop len echo_mask r (c ∷ keys) =
    let rest = read_loop len echo_mask (read_step len echo_mask r c) keys in
    if c == newline
    then some (record {
      console = console_putc r.console newline;
      buf = update r.buf r.pos 0;
      pos = r.pos;
    })
    else rest

unfoldable pub console_readline : Console → Bytes → ℕ → ℕ → List ℕ → Option Reading
console_readline s buf len echo_mask keys =
    read_loop len echo_mask (record { console = s; buf = k_memset buf 0 0 len; pos = 0 }) keys
