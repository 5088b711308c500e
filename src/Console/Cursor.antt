-- ===== src/Console/Cursor.antt =====
-- The cursor stays on the screen, and no cell off the screen is written.
use innovati_os.Base.{
  ℕ, zero, suc, ◌+◌, ◌-◌, ◌%◌, ◌≤◌, ◌<◌, ◌≡◌, refl, ◌∙◌, ◌⊎◌, inl, inr, true, false, ◌&&◌,
  Bool-cases, List, [], ◌∷◌, ◌==◌, ltb, leb, if◌then◌else◌, arith, dec_lt, sub64,
}
use innovati_os.Console.{
  Console, cell, space, newline, backspace, tab, put_cell, scroll_up, next_line, put_backspace,
  put_here, put_plain, put_spaces, console_putc, console_puts,
}
use innovati_os.Console.Cells.{IsConsole, scroll_up_lem}

-- The state is still that of a screen of the same size, and no cell off the screen has changed.
pub record OnScreen (s t : Console) : Type 0 where
  pub valid : IsConsole t
  pub same_cols : t.cols ≡ s.cols
  pub same_rows : t.rows ≡ s.rows
  pub off_screen : (r c : ℕ) → (s.rows ≤ r) ⊎ (s.cols ≤ c) → t.cells r c ≡ s.cells r c

pub OnScreen-refl : (s : Console) → IsConsole s → OnScreen s s
OnScreen-refl s v = record {
  valid = v;
  same_cols = refl;
  same_rows = refl;
  off_screen = λ r c out. refl;
}

pub OnScreen-trans : (s t u : Console) → OnScreen s t → OnScreen t u → OnScreen s u
OnScreen-trans s t u p q = record {
  valid = q.valid;
  same_cols = q.same_cols ∙ p.same_cols;
  same_rows = q.same_rows ∙ p.same_rows;
  off_screen = λ r c out.
      q.off_screen r c (ground (arith, out, p.same_cols, p.same_rows)) ∙ p.off_screen r c out;
}

-- A new line takes the cursor to the start of the next line, or scrolls at the last one.
pub next_line_lem :
    (s : Console)
    → IsConsole s
    → ((next_line s).cur_col ≡ 0)
      × ((next_line s).cur_row ≡ (if leb s.rows (s.cur_row + 1) then s.rows - 1 else s.cur_row + 1))
      × ((r c : ℕ)
          → (next_line s).cells r c ≡ (
              if leb s.rows (s.cur_row + 1) && (ltb r s.rows && ltb c s.cols)
              then (if r + 1 == s.rows then cell s space else s.cells (r + 1) c)
              else s.cells r c))
unfolding next_line scroll_up
next_line_lem s v =
    let last : sub64 s.rows 1 ≡ s.rows - 1 = omega (arith, v.some_rows, v.rows_in) in
    let s' : Console = record s { cur_col = 0; cur_row = sub64 s.rows 1 } in
    let v' : IsConsole s' = record {
      some_cols = v.some_cols;
      some_rows = v.some_rows;
      cols_in = v.cols_in;
      rows_in = v.rows_in;
      col_in = omega arith;
      row_in = omega (arith, last, v.some_rows);
    } in
    (ground arith, ground (arith, last), λ r c. ground (arith, scroll_up_lem s' r c v'))

next_line-OnScreen : (s : Console) → IsConsole s → OnScreen s (next_line s)
unfolding next_line scroll_up
next_line-OnScreen s v =
    let (col, row, cells) = next_line_lem s v in
    let same : ((next_line s).cols ≡ s.cols) × ((next_line s).rows ≡ s.rows) =
      (ground arith, ground arith) in
    record {
      valid = record {
        some_cols = ground (arith, v.some_cols, same.0);
        some_rows = ground (arith, v.some_rows, same.1);
        cols_in = ground (arith, v.cols_in, same.0);
        rows_in = ground (arith, v.rows_in, same.1);
        col_in = ground (arith, col);
        row_in = ground (arith, row, same.1, v.some_rows, v.row_in);
      };
      same_cols = same.0;
      same_rows = same.1;
      off_screen = λ r c out. ground (arith, cells r c, out);
    }

put_backspace-OnScreen : (s : Console) → IsConsole s → OnScreen s (put_backspace s)
unfolding put_backspace put_cell
put_backspace-OnScreen s v = record {
  valid = record {
    some_cols = ground (arith, v.some_cols);
    some_rows = ground (arith, v.some_rows);
    cols_in = ground (arith, v.cols_in);
    rows_in = ground (arith, v.rows_in);
    col_in = ground (arith, v.col_in);
    row_in = ground (arith, v.row_in);
  };
  same_cols = ground arith;
  same_rows = ground arith;
  off_screen = λ r c out. ground (arith, out, v.col_in, v.row_in);
}

put_here-OnScreen :
    (s : Console) (c : ℕ) → IsConsole s → s.cur_col < s.cols → OnScreen s (put_here s c)
unfolding put_here put_cell
put_here-OnScreen s c v room = record {
  valid = record {
    some_cols = v.some_cols;
    some_rows = v.some_rows;
    cols_in = v.cols_in;
    rows_in = v.rows_in;
    col_in = omega arith;
    row_in = v.row_in;
  };
  same_cols = refl;
  same_rows = refl;
  off_screen = λ r k out. ground (arith, out, v.row_in);
}

put_plain-OnScreen : (s : Console) (c : ℕ) → IsConsole s → OnScreen s (put_plain s c)
unfolding put_plain
put_plain-OnScreen s c v = elim (dec_lt s.cur_col s.cols) [
  | yes room ↦
      (let here : leb s.cols s.cur_col ≡ false = ground arith in
        rw here (put_here-OnScreen s c v room))
  | no full ↦
      (let t : Console = next_line s in
        let over : leb s.cols s.cur_col ≡ true = ground arith in
        let on = next_line-OnScreen s v in
        let room : t.cur_col < t.cols = ground (arith, (next_line_lem s v).0, on.valid.some_cols) in
        rw over (OnScreen-trans s t (put_here t c) on (put_here-OnScreen t c on.valid room)))
]

put_spaces-OnScreen : (left : ℕ) (s : Console) → IsConsole s → OnScreen s (put_spaces s left)
unfolding put_spaces
put_spaces-OnScreen zero s v = OnScreen-refl s v
put_spaces-OnScreen (suc left) s v =
    let t : Console = put_plain s space in
    let on = put_plain-OnScreen s space v in
    OnScreen-trans s t (put_spaces t left) on (put_spaces-OnScreen left t on.valid)

-- On a valid screen, console_putc of any character keeps the sizes and a valid cursor, and writes
-- no cell off the screen.
pub console_putc-OnScreen : (s : Console) (c : ℕ) → IsConsole s → OnScreen s (console_putc s c)
unfolding console_putc
console_putc-OnScreen s c v = elim (Bool-cases (c == newline)) [
  | inl e ↦ rw e (next_line-OnScreen s v)
  | inr e ↦ elim (Bool-cases (c == backspace)) [
    | inl f ↦ rw (e, f) (put_backspace-OnScreen s v)
    | inr f ↦ elim (Bool-cases (c == tab)) [
      | inl g ↦ rw (e, f, g) (put_spaces-OnScreen (4 - s.cur_col % 4) s v)
      | inr g ↦ rw (e, f, g) (put_plain-OnScreen s c v)
    ]
  ]
]

-- A text of any length.
pub console_puts-OnScreen :
    (text : List ℕ) (s : Console) → IsConsole s → OnScreen s (console_puts s text)
unfolding console_puts
console_puts-OnScreen [] s v = OnScreen-refl s v
console_puts-OnScreen (c ∷ text) s v =
    let t : Console = console_putc s c in
    let on = console_putc-OnScreen s c v in
    OnScreen-trans s t (console_puts t text) on (console_puts-OnScreen text t on.valid)

-- On a valid screen, a newline takes the cursor to the start of the next line; on the last line
-- it stays there and every line moves up by one, an empty one coming in below, and nothing off
-- the screen changes.
pub console_putc-newline :
    (s : Console)
    → IsConsole s
    → ((console_putc s newline).cur_col ≡ 0)
      × ((console_putc s newline).cur_row
          ≡ (if leb s.rows (s.cur_row + 1) then s.rows - 1 else s.cur_row + 1))
      × ((r c : ℕ)
          → (console_putc s newline).cells r c ≡ (
              if leb s.rows (s.cur_row + 1) && (ltb r s.rows && ltb c s.cols)
              then (if r + 1 == s.rows then cell s space else s.cells (r + 1) c)
              else s.cells r c))
unfolding console_putc
console_putc-newline s v = next_line_lem s v
