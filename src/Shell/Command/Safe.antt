-- ===== src/Shell/Command/Safe.antt =====
-- The lines of a user who is not an admin, and the admin-only commands.
use innovati_os.Base.{
  ℕ, zero, suc, ◌+◌, ◌-◌, ◌≡◌, sym, subst, inl, inr, Bool, true, false, not, ◌&&◌, ◌||◌, Bool-cases,
  Option, none, some, List, [], ◌∷◌, ◌==◌, ltb, if◌then◌else◌, All, arith,
}
use innovati_os.Strings.{ℤ}
use innovati_os.Vfs.{Str}
use innovati_os.Shell.Text.{name_max, cmd_buf_max, blank, skip_spaces, word_until, sh_streq}
use innovati_os.Shell.Number.{is_empty, sh_atoi}
use innovati_os.Shell.Distance.{Row}
use innovati_os.Shell.History.{History, history_add, last_line}
use innovati_os.Shell.Expand.{sh_expand_vars}
use innovati_os.Shell.Command.{
  Session, Action, run, repeats, Command, Message, Outcome, done, undefined, no_fuel, Choice,
  command, one_of, none_of, alias_max_depth, expand_alias, has_semi, pieces, trimmed, unless_exit,
  run_pieces, resolve, suggestion, run_times, say, repeat_count, cmd_repeat, act, perform,
  count_command, process_segment,
}
use innovati_os.Shell.Command.Chosen.{Chosen, resolve-Chosen}
use innovati_os.Shell.Command.Line.{env_of, run_command, run_line, run_lines}

module _ {W : Type 0} where
  -- The handler keeps the property of the session.
  abbrev pub ActKeeps : (Session W → Type 0) → Action W → Type 0
  ActKeeps P (run handler) = (s : Session W) (args : Str) → P s → P (handler s args)
  ActKeeps P repeats = (s : Session W) → P s → P s

  -- The property holds at the end, when there is one.
  abbrev pub Holds : (Session W → Type 0) → Outcome W → Type 0
  Holds P (done s) = P s
  Holds P undefined = Unit
  Holds P no_fuel = Unit

  -- A property of sessions without admin rights that the shell itself and the commands which are
  -- not admin-only keep.
  pub record Guarded (report : Message → W → W) (cmds : List (Command W)) (P : Session W → Type 0)
      : Type 0 where
    pub not_admin : (s : Session W) → P s → s.user.is_admin ≡ false
    pub commands : All (λ c. c.admin_only ≡ false → ActKeeps P c.action) cmds
    pub prints : (s : Session W) (m : Message) → P s → P (say report m s)
    pub counts : (s : Session W) (n : ℕ) → P s → P (record s { cmd_number = n })
    pub records : (s : Session W) (h : History) → P s → P (record s { history = h })

module _ {W : Type 0} (P : Session W → Type 0) where
  choose_if : (b : Bool) (x y : Outcome W) → Holds P x → Holds P y → Holds P (if b then x else y)
  choose_if true x y hx hy = hx
  choose_if false x y hx hy = hy

  unless_exit-Holds :
      (next : Session W → Outcome W) (o : Outcome W)
      → ((s : Session W) → P s → Holds P (next s))
      → Holds P o
      → Holds P (unless_exit next o)
  unfolding unless_exit
  unless_exit-Holds next undefined step h = tt
  unless_exit-Holds next no_fuel step h = tt
  unless_exit-Holds next (done s) step h = choose_if s.exit (Outcome.done s) (next s) h (step s h)

  run_pieces-Holds :
      (process : Str → Session W → Outcome W)
      → ((piece : Str) (s : Session W) → P s → Holds P (process piece s))
      → (texts : List Str) (s : Session W) → P s
      → Holds P (run_pieces process texts s)
  unfolding run_pieces
  run_pieces-Holds process step [] s h = h
  run_pieces-Holds process step (piece ∷ rest) s h =
      choose_if (is_empty (trimmed piece)) (run_pieces process rest s)
        (unless_exit (run_pieces process rest) (process (trimmed piece) s))
        (run_pieces-Holds process step rest s h)
        (unless_exit-Holds (run_pieces process rest) (process (trimmed piece) s)
          (λ s' h'. run_pieces-Holds process step rest s' h') (step (trimmed piece) s h))

  run_times-Holds :
      (again : Session W → Outcome W)
      → ((s : Session W) → P s → Holds P (again s))
      → (left : ℕ) (s : Session W) → P s
      → Holds P (run_times again left s)
  unfolding run_times
  run_times-Holds again step zero s h = h
  run_times-Holds again step (suc left) s h =
      unless_exit-Holds (run_times again left) (again s)
        (λ s' h'. run_times-Holds again step left s' h') (step s h)

module _ {W : Type 0} (P : Session W → Type 0) (report : Message → W → W) (previous current : Row)
    (cmds : List (Command W)) (g : Guarded report cmds P) where
  cmd_repeat-Holds :
      (process : Str → Session W → Outcome W)
      → ((piece : Str) (s : Session W) → P s → Holds P (process piece s))
      → (args : Str) (s : Session W) → P s
      → Holds P (cmd_repeat report process args s)
  unfolding cmd_repeat
  cmd_repeat-Holds process step args s h =
      let (count_str, behind) = word_until blank (name_max - 1) (skip_spaces args) in
      choose_if P (is_empty count_str || is_empty (skip_spaces behind))
        (Outcome.done (say report Message.repeat_usage s))
        (repeat_count report (process (skip_spaces behind)) (sh_atoi count_str) s)
        (g.prints s Message.repeat_usage h) (by_count (skip_spaces behind) (sh_atoi count_str))
    where
      by_count :
          (rest : Str) (count : Option ℤ) → Holds P (repeat_count report (process rest) count s)
      by_count rest none = tt
      by_count rest (some (ℤ.negsuc n)) = g.prints s Message.bad_count h
      by_count rest (some (ℤ.pos n)) =
          choose_if P ((n == 0) || ltb 50 n) (Outcome.done (say report Message.bad_count s))
            (run_times (process rest) n s) (g.prints s Message.bad_count h)
            (run_times-Holds P (process rest) (step rest) n s h)

  perform-Holds :
      (process : Str → Session W → Outcome W)
      → ((piece : Str) (s : Session W) → P s → Holds P (process piece s))
      → (suggest : Str → Option Str) (seg : Str) (choice : Choice W)
      → Chosen (λ c. c.admin_only ≡ false → ActKeeps P c.action) choice
      → (s : Session W) → P s
      → Holds P (perform report suggest process seg choice s)
  unfolding perform
  perform-Holds process step suggest seg (one_of word could) q s h = g.prints s _ h
  perform-Holds process step suggest seg none_of q s h = g.prints s _ h
  perform-Holds process step suggest seg (command c args) q s h = elim (Bool-cases c.admin_only) [
    | inl e ↦
        (let denied : c.admin_only && not s.user.is_admin ≡ true =
            ground (arith, e, g.not_admin s h) in
          subst
            (λ b. Holds P (
              if b
              then Outcome.done (say report (Message.denied c.name) s)
              else act report process c.action args s))
            (sym denied) (g.prints s (Message.denied c.name) h))
    | inr e ↦
        choose_if P (c.admin_only && not s.user.is_admin)
          (Outcome.done (say report (Message.denied c.name) s)) (act report process c.action args s)
          (g.prints s (Message.denied c.name) h) (by_action c.action (q e))
  ]
    where
      by_action : (a : Action W) → ActKeeps P a → Holds P (act report process a args s)
      by_action (run handler) keeps = keeps s args h
      by_action repeats keeps = cmd_repeat-Holds process step args s h

  process_segment-Holds :
      (fuel depth : ℕ) (seg : Str) (s : Session W)
      → P s
      → Holds P (process_segment report previous current cmds fuel depth seg s)
  unfolding process_segment
  process_segment-Holds zero depth seg s h = tt
  process_segment-Holds (suc fuel) depth raw_seg s h =
      let seg : Str = expand_alias s.aliases raw_seg in
      choose_if P (ltb alias_max_depth depth) (Outcome.done (say report Message.too_deep s)) _
        (g.prints s Message.too_deep h)
        (choose_if P (has_semi seg)
          (run_pieces (process_segment report previous current cmds fuel (depth + 1)) (pieces seg)
            s)
          _ (run_pieces-Holds P _ (process_segment-Holds fuel (depth + 1)) (pieces seg) s h)
          (perform-Holds _ (process_segment-Holds fuel 1) (suggestion previous current cmds) seg
            (resolve cmds seg) (resolve-Chosen _ cmds seg g.commands)
            (count_command report previous current cmds s) (g.counts s _ h)))

  run_command-Holds :
      (fuel : ℕ) (cmd : Str) (s : Session W)
      → P s
      → Holds P (run_command report previous current cmds fuel cmd s)
  unfolding run_command
  run_command-Holds fuel cmd s h =
      expanded (sh_expand_vars fuel (env_of report previous current cmds s) cmd cmd_buf_max)
    where
      expanded :
          (o : Option Str)
          → Holds P (elim o [
            | none ↦ Outcome.no_fuel
            | some line ↦
                run_pieces
                  (process_segment report previous current cmds fuel 0)
                  (pieces line)
                  (record s { history = history_add s.history line })
          ])
      expanded none = tt
      expanded (some line) =
          run_pieces-Holds P (process_segment report previous current cmds fuel 0)
            (process_segment-Holds fuel 0) (pieces line) _ (g.records s _ h)

  run_line-Holds :
      (fuel : ℕ) (line : Str) (s : Session W)
      → P s
      → Holds P (run_line report previous current cmds fuel line s)
  unfolding run_line
  run_line-Holds fuel line s h =
      let cmd : Str = skip_spaces line in
      let execute = run_command report previous current cmds fuel in
      choose_if P (is_empty cmd) (Outcome.done s) _ h (
        choose_if P (sh_streq cmd (b'!' ∷ b'!' ∷ [])) _ (execute cmd s)
          (recalled (last_line s.history)) (run_command-Holds fuel cmd s h))
    where
      recalled :
          (o : Option Str)
          → Holds P (elim o [
            | none ↦ Outcome.done (say report Message.no_previous s)
            | some last ↦
                run_command report previous current cmds fuel
                  (skip_spaces last)
                  (say report (Message.recalled (skip_spaces last)) s)
          ])
      recalled none = g.prints s Message.no_previous h
      recalled (some last) =
          run_command-Holds fuel (skip_spaces last) _
            (g.prints s (Message.recalled (skip_spaces last)) h)

  -- Take any property of sessions that says the user is not an admin, and that the shell's
  -- messages, its counter, its history and the handlers of the commands which are not admin-only
  -- keep. Whatever lines the user types, with aliases, semicolons, `repeat`, `!!` and shortened
  -- names, the property holds when they have run, if they end, however the handlers of admin-only
  -- commands would break it.
  pub run_lines-Holds :
      (fuel : ℕ) (lines : List Str) (s : Session W)
      → P s
      → Holds P (run_lines report previous current cmds fuel lines s)
  unfolding run_lines
  run_lines-Holds fuel [] s h = h
  run_lines-Holds fuel (line ∷ lines) s h =
      unless_exit-Holds P (run_lines report previous current cmds fuel lines)
        (run_line report previous current cmds fuel line s)
        (λ s' h'. run_lines-Holds fuel lines s' h') (run_line-Holds fuel line s h)
