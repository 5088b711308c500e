-- ===== src/Shell/Distance.antt =====
-- `sh_edit_distance`: two rows of a table, the arrays `prev` and `curr`.
pub mod Reference
use innovati_os.Base.{
  ℕ, zero, suc, ◌+◌, ◌-◌, Bool, ◌||◌, List, [], ◌∷◌, ◌==◌, ltb, leb, if◌then◌else◌, update, get_or,
}
use innovati_os.Vfs.{Str}
use innovati_os.Shell.Text.{sh_strlen}

abbrev pub Row : Type 0
Row = ℕ → ℕ

-- `for (j...; j <= lb; j++) prev[j] = row[j]`, with `left` = `lb + 1 - j`.
unfoldable pub copy_row : Row → Row → ℕ → ℕ → Row
copy_row prev row zero j = prev
copy_row prev row (suc left) j = copy_row (update prev j (row j)) row left (j + 1)

abbrev pub smaller : ℕ → ℕ → ℕ
smaller x y = if ltb x y then x else y

abbrev pub cost : ℕ → ℕ → ℕ
cost x y = if x == y then 0 else 1

-- The loop over `j`, for the character `x` of the first string, with `left` = `lb + 1 - j`.
unfoldable pub fill_row : ℕ → Str → Row → Row → ℕ → ℕ → Row
fill_row x b prev curr zero j = curr
fill_row x b prev curr (suc left) j =
    let del = prev j + 1 in
    let ins = curr (j - 1) + 1 in
    let sub = prev (j - 1) + cost x (get_or b (j - 1) 0) in
    let m = smaller del ins in fill_row x b prev (update curr j (smaller m sub)) left (j + 1)

-- The loop over `i`, with `left` = `la + 1 - i`: the rows `prev` and `curr` at its end.
unfoldable pub fill_table : Str → Str → Row → Row → ℕ → ℕ → Row × Row
fill_table a b prev curr zero i = (prev, curr)
fill_table a b prev curr (suc left) i =
    let curr' = fill_row (get_or a (i - 1) 0) b prev (update curr 0 i) (sh_strlen b) 1 in
    fill_table a b (copy_row prev curr' (sh_strlen b + 1) 0) curr' left (i + 1)

-- `prev` and `curr` are what the arrays held before.
unfoldable pub sh_edit_distance : Row → Row → Str → Str → ℕ
sh_edit_distance prev curr a b =
    if leb 16 (sh_strlen a) || leb 16 (sh_strlen b)
    then 99
    else (fill_table a b (copy_row prev (λ j. j) (sh_strlen b + 1) 0) curr (sh_strlen a) 1).0
        (sh_strlen b)
