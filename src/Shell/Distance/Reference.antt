-- ===== src/Shell/Distance/Reference.antt =====
-- The rows hold the distances of the prefixes, as the recursive definition gives them.
use innovati_os.Base.{
  ℕ, zero, suc, ◌+◌, ◌-◌, ◌<◌, ◌≡◌, refl, ap, ◌∙◌, ltb, leb, ◌&&◌, if◌then◌else◌, update, get_or,
  arith, ℕ_discrete, min,
}
use mathlib.Core.Path.{ap₂}
use innovati_os.Vfs.{Str}
use innovati_os.Shell.Text.{sh_strlen}
use innovati_os.Shell.Distance.{
  Row, copy_row, smaller, cost, fill_row, fill_table, sh_edit_distance,
}

-- The number of edits between the first `i` characters of `a` and the first `j` of `b`: the last
-- edit deletes a character of `a`, inserts one of `b`, or puts the one for the other.
unfoldable pub distance : Str → Str → ℕ → ℕ → ℕ
distance a b zero j = j
distance a b (suc i) zero = suc i
distance a b (suc i) (suc j) =
    min (min (distance a b i (suc j) + 1) (distance a b (suc i) j + 1))
      (distance a b i j + cost (get_or a i 0) (get_or b j 0))

copy_row_lem :
    (prev row : Row) (left j k : ℕ)
    → copy_row prev row left j k ≡ (if leb j k && ltb k (j + left) then row k else prev k)
unfolding copy_row
copy_row_lem prev row zero j k = ground arith
copy_row_lem prev row (suc left) j k =
    let ih = copy_row_lem (update prev j (row j)) row left (j + 1) k in
    elim (ℕ_discrete k j) [ yes same ↦ ground (arith, ih, same) | no other ↦ ground (arith, ih) ]

-- One cell of the row, from the three that it is computed from.
cell_lem :
    (a b : Str) (prev curr : Row) (i j : ℕ)
    → prev (suc j) ≡ distance a b i (suc j)
    → prev j ≡ distance a b i j
    → curr j ≡ distance a b (suc i) j
    → smaller
        (smaller (prev (suc j) + 1) (curr j + 1))
        (prev j + cost (get_or a i 0) (get_or b j 0))
      ≡ distance a b (suc i) (suc j)
unfolding distance
cell_lem a b prev curr i j up diagonal before = ground (arith, up, diagonal, before)

-- The row holds the distances of the first `i` characters up to column `n`.
abbrev IsRow : Str → Str → ℕ → ℕ → Row → Type 0
IsRow a b i n row = (k : ℕ) → k < n → row k ≡ distance a b i k

fill_row_lem :
    (a b : Str) (prev curr : Row) (i left j : ℕ)
    → IsRow a b i (suc j + left) prev
    → IsRow a b (suc i) (suc j) curr
    → IsRow a b (suc i) (suc j + left) (fill_row (get_or a i 0) b prev curr left (suc j))
unfolding fill_row
fill_row_lem a b prev curr i zero j above done = λ k lt. done k (omega arith)
fill_row_lem a b prev curr i (suc left) j above done =
    let back : suc j - 1 ≡ j = omega arith in
    let next : suc j + 1 ≡ suc (suc j) = omega arith in
    let m : ℕ =
      smaller (smaller (prev (suc j) + 1) (curr j + 1))
        (prev j + cost (get_or a i 0) (get_or b j 0)) in
    let cell : m ≡ distance a b (suc i) (suc j) =
      cell_lem a b prev curr i j (above (suc j) (omega arith)) (above j (omega arith))
        (done j (omega arith)) in
    let more : IsRow a b (suc i) (suc (suc j)) (update curr (suc j) m) = λ k lt.
      elim (ℕ_discrete k (suc j)) [
        | yes same ↦ ground (arith, cell, same)
        | no other ↦ ground (arith, done k (omega arith))
      ] in
    let ih =
      fill_row_lem a b prev (update curr (suc j) m) i left (suc j) (λ k lt. above k (omega arith))
        more in
    rw (back, next) (λ k lt. ih k (omega arith))

row_start : (a b : Str) (curr : Row) (i : ℕ) → IsRow a b i 1 (update curr 0 i)
unfolding distance
row_start a b curr zero zero lt = refl
row_start a b curr (suc i) zero lt = refl
row_start a b curr i (suc k) lt = absurd (omega arith)

-- One round of the outer loop.
fill_table_step :
    (a b : Str) (prev curr row : Row) (left i : ℕ)
    → fill_row (get_or a i 0) b prev (update curr 0 (suc i)) (sh_strlen b) 1 ≡ row
    → fill_table a b prev curr (suc left) (suc i)
      ≡ fill_table a b (copy_row prev row (sh_strlen b + 1) 0) row left (suc (suc i))
unfolding fill_table
fill_table_step a b prev curr row left i e =
    let back : suc i - 1 ≡ i = omega arith in
    let next : suc i + 1 ≡ suc (suc i) = omega arith in
    ap
      (λ k.
        step (fill_row (get_or a k 0) b prev (update curr 0 (suc i)) (sh_strlen b) 1) (suc i + 1))
      back
    ∙ ap₂ step e next
  where
    step : Row → ℕ → Row × Row
    step r k = fill_table a b (copy_row prev r (sh_strlen b + 1) 0) r left k

fill_table_lem :
    (a b : Str) (prev curr : Row) (left i : ℕ)
    → IsRow a b i (suc (sh_strlen b)) prev
    → IsRow a b (i + left) (suc (sh_strlen b)) (fill_table a b prev curr left (suc i)).0
unfolding fill_table
fill_table_lem a b prev curr zero i above = let same : i + 0 ≡ i = omega arith in rw same above
fill_table_lem a b prev curr (suc left) i above =
    let n : ℕ = sh_strlen b in
    let start : Row = update curr 0 (suc i) in
    let row : Row = fill_row (get_or a i 0) b prev start n 1 in
    let filled : IsRow a b (suc i) (1 + n) row =
      fill_row_lem a b prev start i n 0 (λ k lt. above k (omega arith))
        (row_start a b curr (suc i)) in
    let copied : IsRow a b (suc i) (suc n) (copy_row prev row (n + 1) 0) =
      λ k lt. ground (arith, copy_row_lem prev row (n + 1) 0 k, filled k) in
    let step = fill_table_step a b prev curr row left i refl in
    let whole : suc i + left ≡ i + suc left = omega arith in
    λ k lt.
      ap (λ t. t.0 k) step
      ∙ fill_table_lem a b (copy_row prev row (n + 1) 0) row left (suc i) copied k lt
      ∙ ap (λ r. distance a b r k) whole

row_zero : (b : Str) (a : Str) (k : ℕ) → distance a b 0 k ≡ k
unfolding distance
row_zero b a k = refl

-- For two strings of fewer than 16 characters, and whatever the arrays hold before, the two rows
-- of sh_edit_distance compute the edit distance as it is defined by recursion.
pub sh_edit_distance_lem :
    (prev curr : Row) (a b : Str)
    → sh_strlen a < 16
    → sh_strlen b < 16
    → sh_edit_distance prev curr a b ≡ distance a b (sh_strlen a) (sh_strlen b)
unfolding sh_edit_distance
sh_edit_distance_lem prev curr a b la lb =
    let n : ℕ = sh_strlen b in
    let start : Row = copy_row prev (λ j. j) (n + 1) 0 in
    let first : IsRow a b 0 (suc n) start =
      λ k lt. ground (arith, copy_row_lem prev (λ j. j) (n + 1) 0 k, row_zero b a k) in
    let all : 0 + sh_strlen a ≡ sh_strlen a = omega arith in
    let table = fill_table_lem a b start curr (sh_strlen a) 0 first n (omega arith) in
    ground (arith, all, table)
