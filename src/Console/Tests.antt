-- ===== src/Console/Tests.antt =====
-- Witnesses for the console.
use innovati_os.Base.{◌+◌, ◌*◌, ◌≡◌, ◌⊎◌, none, some, [], ◌∷◌, arith}
use innovati_os.Vfs.{Str}
use innovati_os.Console.{Console, Reading, console_putc, console_readline}
use innovati_os.Console.Cells.{IsConsole}
use innovati_os.Console.Cursor.{OnScreen, console_putc-OnScreen}
use innovati_os.Console.Line.{typed, IsLine, console_readline_lem}

-- A screen of 3 columns and 2 rows, with the cursor at the end of its last line.
abbrev small_screen : Console
small_screen = record {
  cols = 3;
  rows = 2;
  cur_col = 3;
  cur_row = 1;
  fg = 1;
  bg = 0;
  cells = λ r c. record { ch = r * 3 + c; fg = 1; bg = 0 };
}

small_screen-IsConsole : IsConsole small_screen
small_screen-IsConsole = record {
  some_cols = omega arith;
  some_rows = omega arith;
  cols_in = omega arith;
  rows_in = omega arith;
  col_in = omega arith;
  row_in = omega arith;
}

console_putc-OnScreen_example : OnScreen small_screen (console_putc small_screen b'x')
console_putc-OnScreen_example = console_putc-OnScreen small_screen b'x' small_screen-IsConsole

console_readline_lem_example :
    ((typed 3 [] (b'a' ∷ 8 ∷ b'b' ∷ b'c' ∷ b'd' ∷ 10 ∷ []) ≡ none)
      × (console_readline small_screen (λ a. 7) 3 0 (b'a' ∷ 8 ∷ b'b' ∷ b'c' ∷ b'd' ∷ 10 ∷ [])
          ≡ none))
    ⊎ ((line : Str) × (r : Reading) × (typed 3 [] (b'a' ∷ 8 ∷ b'b' ∷ b'c' ∷ b'd' ∷ 10 ∷ [])
          ≡ some line)
        × (console_readline small_screen (λ a. 7) 3 0 (b'a' ∷ 8 ∷ b'b' ∷ b'c' ∷ b'd' ∷ 10 ∷ [])
            ≡ some r)
        × IsLine small_screen (λ a. 7) 3 line r)
console_readline_lem_example =
    console_readline_lem small_screen (λ a. 7) 3 0 (b'a' ∷ 8 ∷ b'b' ∷ b'c' ∷ b'd' ∷ 10 ∷ [])
      small_screen-IsConsole (omega arith) (omega arith)
