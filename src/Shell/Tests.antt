-- ===== src/Shell/Tests.antt =====
-- Witnesses for the shell.
use innovati_os.Base.{
  ℕ, ◌<◌, ◌+◌, ◌-◌, ◌≡◌, refl, ◌⊎◌, true, false, none, some, [], ◌∷◌, ◌++◌, arith, length, drop,
  find_slot,
}
use innovati_os.Strings.{ℤ}
use innovati_os.Vfs.{Str}
use innovati_os.Users.{User}
use innovati_os.Shell.Text.{sh_strlen, value_max, sh_copy, sh_streq, match_rest, skip_spaces}
use innovati_os.Shell.Number.{sh_int_to_str, sh_atoi}
use innovati_os.Shell.Number.RoundTrip.{sh_atoi-sh_int_to_str}
use innovati_os.Shell.Distance.{Row, sh_edit_distance}
use innovati_os.Shell.Distance.Reference.{distance, sh_edit_distance_lem}
use innovati_os.Shell.Table.{Table, table_size, Reply, put_pair, cmd_remove, lookup}
use innovati_os.Shell.Table.Write.{IsTable, Binds}
use innovati_os.Shell.Table.Lookup.{put_pair_lem, cmd_remove_lem}
use innovati_os.Shell.History.{History, history_size, history_add, show_history}
use innovati_os.Shell.History.Last.{Remembers, numbered, history_add-Remembers, show_history_lem}
use innovati_os.Shell.Expand.{Env}
use innovati_os.Shell.Theme.{Themes, cmd_theme}
use innovati_os.Shell.Theme.Safe.{IsThemes, KeepsBuiltins, cmd_theme-IsThemes}
use innovati_os.Shell.Command.{
  Session, Action, Command, Outcome, Choice, Message, resolve, process_segment, say,
}
use innovati_os.Shell.Command.Line.{run_line, run_lines}
use innovati_os.Shell.Command.Safe.{Holds, Guarded, run_lines-Holds}
use innovati_os.Shell.Command.LineEnds.{run_line-done}
use innovati_os.Shell.Command.Find.{resolve_lem}
use innovati_os.Shell.Command.Loops.{repeat_r, process_segment-no_fuel}

abbrev ab : Str
ab = b'a' ∷ b'b' ∷ []

abbrev row : Row
row i = 0

sh_atoi-sh_int_to_str_example : sh_atoi (sh_int_to_str (ℤ.negsuc 41) 16) ≡ some (ℤ.negsuc 41)
sh_atoi-sh_int_to_str_example = sh_atoi-sh_int_to_str (ℤ.negsuc 41) (omega arith) (omega arith)

short_ab : sh_strlen ab < 16
unfolding sh_strlen
short_ab = omega arith

short_b : sh_strlen (b'b' ∷ []) < 16
unfolding sh_strlen
short_b = omega arith

sh_edit_distance_lem_example : sh_edit_distance row row ab (b'b' ∷ []) ≡ distance ab (b'b' ∷ []) 2 1
unfolding sh_strlen
sh_edit_distance_lem_example = sh_edit_distance_lem row row ab (b'b' ∷ []) short_ab short_b

abbrev no_pairs : Table
no_pairs i = record { name = []; value = []; used = false }

no_pairs-IsTable : IsTable no_pairs
no_pairs-IsTable i j li lj ui uj e = absurd (ground (arith, ui))

put_pair_lem_example :
    ((put_pair no_pairs ab ab ≡ (no_pairs, Reply.full))
      × (lookup no_pairs ab ≡ none)
      × ((j : ℕ) → j < table_size → (no_pairs j).used ≡ true))
    ⊎ ((t' : Table) × (put_pair no_pairs ab ab ≡ (t', Reply.ok))
        × Binds no_pairs ab (some (sh_copy ab value_max)) t')
put_pair_lem_example = put_pair_lem no_pairs ab ab no_pairs-IsTable (omega arith)

cmd_remove_lem_example :
    ((cmd_remove no_pairs ab ≡ (no_pairs, Reply.no_such)) × (lookup no_pairs ab ≡ none))
    ⊎ ((t' : Table) × (cmd_remove no_pairs ab ≡ (t', Reply.ok)) × Binds no_pairs ab none t')
cmd_remove_lem_example = cmd_remove_lem no_pairs ab no_pairs-IsTable

abbrev no_history : History
no_history = record { history_buf = λ i. []; history_count = 0 }

no_history-Remembers : Remembers no_history []
no_history-Remembers = record {
  count = refl;
  small = omega arith;
  recent = λ k lt near. absurd (omega arith);
}

history_add-Remembers_example : Remembers (history_add no_history ab) ([] ++ (ab ∷ []))
history_add-Remembers_example =
    history_add-Remembers no_history [] ab no_history-Remembers (omega arith)

abbrev one_line : History
one_line = history_add no_history ab

show_history_lem_example :
    show_history (λ line. true) one_line
    ≡ numbered
        (λ line. true)
        (length (ab ∷ []) - history_size)
        (drop (length (ab ∷ []) - history_size) (ab ∷ []))
show_history_lem_example =
    show_history_lem (λ line. true) one_line (ab ∷ []) history_add-Remembers_example

abbrev guest : User
guest = record { used = true; uid = 1; username = ab; password_hash = 0; is_admin = false }

abbrev env : Env
env = record { vars = no_pairs; user = guest; cmd_number = 1 }

abbrev dollar : Str
dollar = b'$' ∷ b'U' ∷ b'S' ∷ b'E' ∷ b'R' ∷ b'!' ∷ []

abbrev plain : Themes
plain = record {
  table = λ i. record {
    name = [];
    user_color = none;
    at_color = 0;
    symbol_color = none;
    symbol = 0;
    used = false;
    builtin = false;
  };
  active = none;
  ready = true;
}

cmd_theme-IsThemes_example :
    IsThemes (cmd_theme plain ab).0 × KeepsBuiltins plain (cmd_theme plain ab).0
cmd_theme-IsThemes_example =
    cmd_theme-IsThemes plain ab
      (record { set_up = refl; active_used = λ i e. absurd (ground (arith, e)) })

-- A world that counts, and a table of three commands; the last one is for admins.
abbrev quiet : Message → ℕ → ℕ
quiet m n = n

abbrev leave : Command ℕ
leave = record {
  name = ab;
  action = Action.run (λ s args. record s { exit = true });
  admin_only = false;
}

abbrev again : Command ℕ
again = record {
  name = b'r' ∷ b'e' ∷ b'p' ∷ b'e' ∷ b'a' ∷ b't' ∷ [];
  action = Action.repeats;
  admin_only = false;
}

abbrev format : Command ℕ
format = record {
  name = b'm' ∷ [];
  action = Action.run (λ s args. record s { world = s.world + 1 });
  admin_only = true;
}

abbrev start : Session ℕ
start = record {
  user = guest;
  vars = no_pairs;
  aliases = no_pairs;
  history = no_history;
  show_suggestions = true;
  cmd_number = 1;
  exit = false;
  world = 0;
}

abbrev Untouched : Session ℕ → Type 0
Untouched s = (s.user.is_admin ≡ false) × (s.world ≡ 0)

Untouched-say : (s : Session ℕ) (m : Message) → Untouched s → Untouched (say quiet m s)
unfolding say
Untouched-say s m h = h

Untouched-Guarded : Guarded quiet (leave ∷ again ∷ format ∷ []) Untouched
Untouched-Guarded = record {
  not_admin = λ s h. h.0;
  commands = (λ e s args h. h, (λ e s h. h, (λ e. absurd (ground (arith, e)), tt)));
  prints = λ s m h. Untouched-say s m h;
  counts = λ s n h. h;
  records = λ s n h. h;
}

run_lines-Holds_example :
    Holds Untouched
      (run_lines quiet row row (leave ∷ again ∷ format ∷ []) 300 ((b'm' ∷ []) ∷ ab ∷ []) start)
run_lines-Holds_example =
    run_lines-Holds Untouched quiet row row (leave ∷ again ∷ format ∷ []) Untouched-Guarded 300
      ((b'm' ∷ []) ∷ ab ∷ []) start (refl, refl)

run_line-done_example :
    (s' : Session ℕ) × (run_line quiet row row (leave ∷ format ∷ []) 256 ab start ≡ Outcome.done s')
run_line-done_example =
    run_line-done quiet row row (leave ∷ format ∷ []) (tt, (tt, tt)) 256 (omega arith) ab start
      (omega arith)

rest_of_ab : match_rest (b' ' ∷ ab) ≡ some ab
unfolding match_rest skip_spaces
rest_of_ab = refl

resolve_lem_example :
    resolve (leave ∷ format ∷ []) (format.name ++ (b' ' ∷ ab)) ≡ Choice.command format ab
resolve_lem_example =
    resolve_lem (leave ∷ []) [] format (b' ' ∷ ab) ab
      ((λ e. absurd (ground (arith, e)), (omega arith, (omega arith, tt))), tt) (omega arith, tt)
      rest_of_ab

abbrev aliased : Session ℕ
aliased = record start { aliases = λ i. record { name = b'r' ∷ []; value = repeat_r; used = true } }

alias_of_r : lookup aliased.aliases (b'r' ∷ []) ≡ some repeat_r
unfolding lookup find_slot sh_streq
alias_of_r = refl

rest_of_repeat : match_rest (b' ' ∷ b'1' ∷ b' ' ∷ b'r' ∷ []) ≡ some (b'1' ∷ b' ' ∷ b'r' ∷ [])
unfolding match_rest skip_spaces
rest_of_repeat = refl

process_segment-no_fuel_example :
    process_segment quiet row row (again ∷ []) 1000 0 (b'r' ∷ []) aliased ≡ Outcome.no_fuel
process_segment-no_fuel_example =
    process_segment-no_fuel quiet row row (again ∷ []) 1000 0 aliased again (omega arith) alias_of_r
      (resolve_lem [] [] again (b' ' ∷ b'1' ∷ b' ' ∷ b'r' ∷ []) (b'1' ∷ b' ' ∷ b'r' ∷ []) tt
        (omega arith, (omega arith, (omega arith, (omega arith, (omega arith, (omega arith, tt))))))
        rest_of_repeat)
      refl refl
