-- ===== src/Shell/Theme/Safe.antt =====
-- The command `theme`, the active theme and the builtin themes.
use innovati_os.Base.{
  ℕ, ◌<◌, ◌≡◌, ◌≢◌, refl, sym, subst, ◌⊎◌, inl, inr, Bool, true, false, ◌||◌, Bool-cases, Option,
  none, some, if◌then◌else◌, update, arith, ℕ_discrete, find_slot_lem, IsFirst,
}
use innovati_os.Vfs.{Str}
use innovati_os.Shell.Text.{name_max, value_max, sh_copy, sh_streq, split_two_words}
use innovati_os.Shell.Number.{is_empty}
use innovati_os.Shell.Theme.{
  Theme, Themes, Said, max_themes, named, unused, theme_find, register_slot, theme_register,
  shell_init_themes, theme_delete, saves_builtin, theme_save_as, theme_save, theme_save_color,
  still_active, theme_select, theme_command, cmd_theme, color_from_name, first_char, list_word,
  reset_word, delete_word, save_word, status_word,
}

-- The active theme is in use, and the builtin themes are registered.
pub record IsThemes (s : Themes) : Type 0 where
  pub set_up : s.ready ≡ true
  pub active_used : (i : ℕ) → s.active ≡ some i → i < max_themes × ((s.table i).used ≡ true)

-- No builtin theme is lost or changed.
pub KeepsBuiltins : Themes → Themes → Type 0
KeepsBuiltins s s' =
    (i : ℕ) → (s.table i).used ≡ true → (s.table i).builtin ≡ true → s'.table i ≡ s.table i

abbrev pub Safe : Themes → Themes → Type 0
Safe s s' = IsThemes s' × KeepsBuiltins s s'

pub theme_find_lem :
    (table : ℕ → Theme) (name : Str)
    → ((theme_find table name ≡ none) × ((j : ℕ) → j < max_themes → named name (table j) ≡ false))
      ⊎ ((i : ℕ) × (theme_find table name ≡ some i) × IsFirst (named name) table max_themes 0 i)
unfolding theme_find
theme_find_lem table name = elim (find_slot_lem (named name) table max_themes 0) [
  | inl h ↦ inl (h.0, λ j lt. h.1 j (omega arith) (omega arith))
  | inr h ↦ inr h
]

keep : (s : Themes) → IsThemes s → Safe s s
unfolding KeepsBuiltins
keep s v = (v, λ i used built. refl)

-- What is safe for the result is safe for the code.
by_result :
    {A : Type 0} (s : Themes) (r : Themes × A) (r' : Themes × A) → r ≡ r' → Safe s r'.0 → Safe s r.0
by_result s r r' e safe = subst (λ x. Safe s x.0) (sym e) safe

-- A theme in a slot that no builtin theme has.
write-Safe :
    (s : Themes) (i : ℕ) (t : Theme)
    → IsThemes s
    → (((s.table i).used ≡ false) ⊎ ((s.table i).builtin ≡ false))
    → t.used ≡ true
    → Safe s (record s { table = update s.table i t })
unfolding KeepsBuiltins
write-Safe s i t v free used = (
  record {
    set_up = v.set_up;
    active_used = λ a on. (
      (v.active_used a on).0,
      elim (ℕ_discrete a i) [
        | yes same ↦ ground (arith, used, same)
        | no other ↦ ground (arith, (v.active_used a on).1, other)
      ],
    );
  },
  λ j in_use built. elim (ℕ_discrete j i) [
    | yes same ↦ elim free [
      | inl e ↦ absurd (ground (arith, e, same, in_use))
      | inr e ↦ absurd (ground (arith, e, same, built))
    ]
    | no other ↦ ground (arith, other)
  ],
)

still_active_lem :
    (active : Option ℕ) (i a : ℕ) → still_active active i ≡ some a → (active ≡ some a) × (a ≢ i)
still_active_lem none i a e = absurd (ground (arith, e))
still_active_lem (some b) i a e = elim (ℕ_discrete b i) [
  | yes same ↦ absurd (ground (arith, e, same))
  | no other ↦ (ground (arith, e, other), ground (arith, e, other))
]

delete-Safe : (s : Themes) (name : Str) → IsThemes s → Safe s (theme_delete s name).0
unfolding theme_delete KeepsBuiltins
delete-Safe s name v = elim (theme_find_lem s.table name) [
  | inl h ↦ by_result s (theme_delete s name) (s, Said.unknown) (ground (arith, h.0)) (keep s v)
  | inr (i, run, f) ↦ elim (Bool-cases (s.table i).builtin) [
    | inl e ↦
        by_result s (theme_delete s name) (s, Said.is_builtin) (ground (arith, run, e)) (keep s v)
    | inr e ↦
        (let active : Option ℕ = still_active s.active i in
          let pass = f.passes in
          let s' : Themes = record s {
            table = update s.table i (record (s.table i) { used = false });
            active = active;
          } in
          by_result s (theme_delete s name) (s', Said.done) (ground (arith, run, e))
            (
              record {
                set_up = v.set_up;
                active_used = λ a on.
                    let (was, ne) = still_active_lem s.active i a on in
                    ((v.active_used a was).0, ground (arith, (v.active_used a was).1, ne));
              },
              λ j in_use built. elim (ℕ_discrete j i) [
                | yes same ↦ absurd (ground (arith, e, same, built))
                | no other ↦ ground (arith, other)
              ],
            ))
  ]
]

save_as-Safe :
    (s : Themes) (name : Str) (color sym : ℕ)
    → IsThemes s
    → Safe s (theme_save_as s name color sym).0
unfolding theme_save_as theme_register register_slot saves_builtin
save_as-Safe s name color sym v =
    let t : Theme = record {
      name = sh_copy name name_max;
      user_color = some color;
      at_color = color;
      symbol_color = some color;
      symbol = sym;
      used = true;
      builtin = false;
    } in
    let run = theme_save_as s name color sym in
    elim (theme_find_lem s.table name) [
      | inl h ↦ elim (find_slot_lem unused s.table max_themes 0) [
        | inl g ↦ by_result s run (s, Said.no_room) (ground (arith, h.0, g.0)) (keep s v)
        | inr (i, at_i, f) ↦
            (let pass = f.passes in
              by_result s run (record s { table = update s.table i t }, Said.done)
                (ground (arith, h.0, at_i)) (write-Safe s i t v (inl (ground arith)) refl))
      ]
      | inr (i, at_i, f) ↦ elim (Bool-cases (s.table i).builtin) [
        | inl e ↦ by_result s run (s, Said.is_builtin) (ground (arith, at_i, e)) (keep s v)
        | inr e ↦
            by_result s run (record s { table = update s.table i t }, Said.done)
              (ground (arith, at_i, e)) (write-Safe s i t v (inr e) refl)
      ]
    ]

-- A choice of two safe results.
choose-Safe :
    (s : Themes) (b : Bool) (x y : Themes × Said)
    → Safe s x.0
    → Safe s y.0
    → Safe s (if b then x else y).0
choose-Safe s true x y safe_x safe_y = safe_x
choose-Safe s false x y safe_x safe_y = safe_y

save_color-Safe :
    (s : Themes) (name : Str) (color : Option ℕ) (mark : ℕ)
    → IsThemes s
    → Safe s (theme_save_color s name color mark).0
save_color-Safe s name none mark v = keep s v
save_color-Safe s name (some color) mark v =
    choose-Safe s (is_empty name) (s, Said.wrong_usage) (theme_save_as s name color mark) (keep s v)
      (save_as-Safe s name color mark v)

save-Safe : (s : Themes) (rest : Str) → IsThemes s → Safe s (theme_save s rest).0
unfolding theme_save
save-Safe s rest v =
    let (name, color_and_sym) = split_two_words rest name_max value_max in
    let (color_str, symbol_str) = split_two_words color_and_sym name_max name_max in
    save_color-Safe s name (color_from_name color_str) (first_char symbol_str) v

select-Safe : (s : Themes) (name : Str) → IsThemes s → Safe s (theme_select s name).0
unfolding theme_select KeepsBuiltins
select-Safe s name v = elim (theme_find_lem s.table name) [
  | inl h ↦ by_result s (theme_select s name) (s, Said.unknown) (ground (arith, h.0)) (keep s v)
  | inr (i, run, f) ↦
      (let pass = f.passes in
        by_result s (theme_select s name) (record s { active = some i }, Said.done)
          (ground (arith, run))
          (
            record {
              set_up = v.set_up;
              active_used = λ a on. (ground (arith, f.within, on), ground (arith, on, pass));
            },
            λ j in_use built. refl,
          ))
]

reset-Safe : (s : Themes) → IsThemes s → Safe s (record s { active = none })
unfolding KeepsBuiltins
reset-Safe s v = (
  record { set_up = v.set_up; active_used = λ a on. absurd (ground (arith, on)) },
  λ i used built. refl,
)

command-Safe : (s : Themes) (sub rest : Str) → IsThemes s → Safe s (theme_command s sub rest).0
unfolding theme_command
command-Safe s sub rest v =
    choose-Safe s (sh_streq sub list_word) (s, Said.listing) _ (keep s v)
      (choose-Safe s (sh_streq sub reset_word) (record s { active = none }, Said.done) _
        (reset-Safe s v)
        (choose-Safe s (sh_streq sub delete_word) (theme_delete s rest) _ (delete-Safe s rest v) (
          choose-Safe s (sh_streq sub save_word) (theme_save s rest) (theme_select s sub)
            (save-Safe s rest v) (select-Safe s sub v))))

-- If the builtin themes are registered and the active theme, if there is one, is in use, then so
-- it is after the command `theme` with any arguments, and every builtin theme is as it was.
pub cmd_theme-IsThemes :
    (s : Themes) (args : Str)
    → IsThemes s
    → IsThemes (cmd_theme s args).0 × KeepsBuiltins s (cmd_theme s args).0
unfolding cmd_theme shell_init_themes
cmd_theme-IsThemes s args v =
    let ready : shell_init_themes s ≡ s = ground (arith, v.set_up) in
    let (sub, rest) = split_two_words args name_max value_max in
    subst
      (λ x.
        Safe s
          (if is_empty args || sh_streq args status_word
            then (x, Said.status)
            else theme_command x sub rest).0)
      (sym ready)
      (choose-Safe s (is_empty args || sh_streq args status_word) (s, Said.status)
        (theme_command s sub rest) (keep s v) (command-Safe s sub rest v))
