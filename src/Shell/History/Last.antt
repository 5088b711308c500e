-- ===== src/Shell/History/Last.antt =====
-- The ring and the lines that it stands for.
use innovati_os.Base.{
  ℕ, zero, suc, ◌+◌, ◌-◌, ◌%◌, ◌^◌, ◌≤◌, ◌<◌, ◌≡◌, ◌≢◌, refl, ap, sym, ◌∙◌, Bool, some, List, [],
  ◌∷◌, ◌++◌, if◌then◌else◌, arith, length, get_or, take, drop, get_or_append, drop_next, drop_all,
  length-append, ℕ_discrete,
}
use innovati_os.Vfs.{Str}
use innovati_os.Shell.Text.{cmd_buf_max, sh_copy}
use innovati_os.Shell.History.{
  History, history_size, history_add, last_line, show_from, history_start, show_history,
}

-- The lines that were added since the history was cleared, the oldest first.
pub record Remembers (h : History) (cmds : List Str) : Type 0 where
  pub count : h.history_count ≡ length cmds
  pub small : length cmds < 2 ^ 32
  pub recent :
      (k : ℕ)
      → k < length cmds
      → length cmds ≤ k + history_size
      → h.history_buf (k % history_size) ≡ sh_copy (get_or cmds k []) cmd_buf_max

-- If the history stands for a list of lines (their number is its count, and the last 16 of them
-- are in their slots), then after history_add it stands for the list with the line at its end, as
-- long as there are fewer than 2^32.
pub history_add-Remembers :
    (h : History) (cmds : List Str) (cmd : Str)
    → Remembers h cmds
    → length cmds + 1 < 2 ^ 32
    → Remembers (history_add h cmd) (cmds ++ (cmd ∷ []))
unfolding history_add
history_add-Remembers h cmds cmd v room =
    let size = length-append cmds (cmd ∷ []) in
    record {
      count = omega (arith, size, v.count);
      small = omega (arith, size);
      recent = λ k lt near. elim (ℕ_discrete k (length cmds)) [
        | yes new ↦
            (let slot : k % history_size ≡ h.history_count % history_size =
                ap (λ x. x % history_size) (new ∙ sym v.count) in
              let zeroth : k - length cmds ≡ 0 = omega arith in
              ground (arith, slot, zeroth, new, get_or_append cmds (cmd ∷ []) k []))
        | no old ↦
            (let apart : k % history_size ≢ h.history_count % history_size =
                omega (arith, v.count, size, near, lt) in
              ground (arith, apart, size, v.recent k, get_or_append cmds (cmd ∷ []) k []))
      ];
    }

-- The lines that the test lets through, with their numbers from `i + 1` on.
unfoldable pub numbered : (Str → Bool) → ℕ → List Str → List (ℕ × Str)
numbered shows i [] = []
numbered shows i (cmd ∷ cmds) =
    let line = sh_copy cmd cmd_buf_max in
    let rest = numbered shows (i + 1) cmds in if shows line then (i + 1, line) ∷ rest else rest

show_from_lem :
    (shows : Str → Bool) (h : History) (cmds : List Str) (left i : ℕ)
    → Remembers h cmds
    → i + left ≡ length cmds
    → left ≤ history_size
    → show_from shows h left i ≡ numbered shows i (drop i cmds)
unfolding show_from numbered
show_from_lem shows h cmds zero i v all few =
    let end : i ≡ length cmds = omega arith in
    sym (ap (λ xs. numbered shows i xs) (ap (λ n. drop n cmds) end ∙ drop_all cmds))
show_from_lem shows h cmds (suc left) i v all few =
    let ih = show_from_lem shows h cmds left (i + 1) v (omega arith) (omega arith) in
    let next : drop i cmds ≡ get_or cmds i [] ∷ drop (suc i) cmds =
      drop_next cmds i [] (omega arith) in
    let one : suc i ≡ i + 1 = omega arith in
    let line = v.recent i (omega arith) (omega arith) in
    ap (λ s. cons_if (shows s) (i + 1, s) (show_from shows h left (i + 1))) line
    ∙ ap (cons_if (shows (cut i)) (i + 1, cut i))
        (ih ∙ ap (λ n. numbered shows (i + 1) (drop n cmds)) (sym one))
    ∙ sym (ap (λ xs. numbered shows i xs) next)
  where
    cut : ℕ → Str
    cut k = sh_copy (get_or cmds k []) cmd_buf_max

    cons_if : Bool → ℕ × Str → List (ℕ × Str) → List (ℕ × Str)
    cons_if b x xs = if b then x ∷ xs else xs

-- If the history stands for a list of lines, `history` prints of the last 16 those that pass its
-- test, in order, cut to 255 characters and with the number that each has in the whole list; of a
-- longer list the earlier lines are not shown.
pub show_history_lem :
    (shows : Str → Bool) (h : History) (cmds : List Str)
    → Remembers h cmds
    → show_history shows h
      ≡ numbered shows (length cmds - history_size) (drop (length cmds - history_size) cmds)
unfolding show_history
show_history_lem shows h cmds v =
    let start : history_start h ≡ length cmds - history_size = ground (arith, v.count) in
    show_from_lem shows h cmds (h.history_count - history_start h) (history_start h) v
      (omega (arith, start, v.count)) (omega (arith, start, v.count))
    ∙ ap (λ n. numbered shows n (drop n cmds)) start

take-take : (n : ℕ) (s : Str) → take n (take n s) ≡ take n s
take-take zero s = refl
take-take (suc n) [] = refl
take-take (suc n) (c ∷ s) = ap (λ t. c ∷ t) (take-take n s)

-- After a line is added, `!!` gives that line, cut to the buffer.
pub last_line_lem :
    (h : History) (cmds : List Str) (cmd : Str)
    → Remembers h (cmds ++ (cmd ∷ []))
    → last_line h ≡ some (sh_copy cmd cmd_buf_max)
unfolding last_line sh_copy
last_line_lem h cmds cmd v =
    let size = length-append cmds (cmd ∷ []) in
    let index : h.history_count - 1 ≡ length cmds = omega (arith, size, v.count) in
    let line = v.recent (length cmds) (omega (arith, size)) (omega (arith, size)) in
    let zeroth : length cmds - length cmds ≡ 0 = omega arith in
    let own = get_or_append cmds (cmd ∷ []) (length cmds) [] in
    let held : h.history_buf (length cmds % history_size) ≡ take 255 cmd =
      line ∙ ap (take 255) (ground (arith, own, zeroth)) in
    ground (arith, v.count, size, index, held, take-take 255 cmd)
