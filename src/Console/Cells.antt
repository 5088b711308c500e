-- ===== src/Console/Cells.antt =====
-- What the loops over rows and cells do.
use innovati_os.Base.{
  ℕ, zero, suc, ◌+◌, ◌-◌, ◌≤◌, ◌<◌, ◌≡◌, ◌&&◌, ◌==◌, ltb, leb, if◌then◌else◌, arith, ℕ_discrete,
  sub64,
}
use innovati_os.Console.{
  Cells, Console, cell, space, clear_row, clear_rows, cells_clear, copy_row, copy_rows, scroll_up,
}

-- The sizes that `console_init` allows, for a screen that is not empty, and the cursor on the
-- screen or just behind the end of its line.
pub record IsConsole (s : Console) : Type 0 where
  pub some_cols : 0 < s.cols
  pub some_rows : 0 < s.rows
  pub cols_in : s.cols ≤ 240
  pub rows_in : s.rows ≤ 67
  pub col_in : s.cur_col ≤ s.cols
  pub row_in : s.cur_row < s.rows

clear_rows_lem :
    (s : Console) (m : Cells) (left row r c : ℕ)
    → clear_rows s m left row r c
      ≡ (if leb row r && (ltb r (row + left) && ltb c s.cols) then cell s space else m r c)
unfolding clear_rows clear_row
clear_rows_lem s m zero row r c = ground arith
clear_rows_lem s m (suc left) row r c =
    let ih = clear_rows_lem s (clear_row s m row) left (row + 1) r c in
    elim (ℕ_discrete r row) [ yes same ↦ ground (arith, ih) | no other ↦ ground (arith, ih) ]

pub cells_clear_lem :
    (s : Console) (r c : ℕ)
    → (cells_clear s).cells r c
      ≡ (if ltb r s.rows && ltb c s.cols then cell s space else s.cells r c)
unfolding cells_clear
cells_clear_lem s r c = ground (arith, clear_rows_lem s s.cells s.rows 0 r c)

copy_rows_lem :
    (s : Console) (m : Cells) (left row r c : ℕ)
    → copy_rows s m left row r c
      ≡ (if leb row r && (ltb r (row + left) && ltb c s.cols) then m (r + 1) c else m r c)
unfolding copy_rows copy_row
copy_rows_lem s m zero row r c = ground arith
copy_rows_lem s m (suc left) row r c =
    let ih = copy_rows_lem s (copy_row s m row) left (row + 1) r c in
    elim (ℕ_discrete r row) [ yes same ↦ ground (arith, ih) | no other ↦ ground (arith, ih) ]

-- Every line moves up by one, the last one becomes empty, and nothing off the screen changes.
pub scroll_up_lem :
    (s : Console) (r c : ℕ)
    → IsConsole s
    → (scroll_up s).cells r c ≡ (
        if ltb r s.rows && ltb c s.cols
        then (if r + 1 == s.rows then cell s space else s.cells (r + 1) c)
        else s.cells r c)
unfolding scroll_up clear_row
scroll_up_lem s r c v =
    let last : sub64 s.rows 1 ≡ s.rows - 1 = omega (arith, v.some_rows, v.rows_in) in
    ground (arith, last, v.some_rows, copy_rows_lem s s.cells (s.rows - 1) 0 r c)
