-- ===== src/Shell/Command.antt =====
-- `process_segment` and the loop of `shell_run`: from a command line to the handlers.
--
-- The console, the disk and the rest of the system are the world `W`, a parameter, and `report`
-- prints a message. A handler is a function of the session and the arguments; `repeat` alone calls
-- `process_segment` again. The depth of the C calls has no bound, so that they run on fuel.
pub mod Line
pub mod Handlers
pub mod Names
pub mod Chosen
pub mod Safe
pub mod Ends
pub mod LineEnds
pub mod Find
pub mod Loops
use innovati_os.Base.{
  ℕ, zero, suc, ◌+◌, ◌-◌, Bool, true, false, not, ◌&&◌, ◌||◌, Option, none, some, List, [], ◌∷◌,
  ◌++◌, ◌==◌, ltb, leb, if◌then◌else◌, take, drop, u32,
}
use innovati_os.Strings.{ℤ}
use innovati_os.Vfs.{Str}
use innovati_os.Users.{User}
use innovati_os.Shell.Text.{
  cmd_buf_max, name_max, blank, sh_strlen, sh_first_word, skip_spaces, begins, word_until,
  cmd_match,
}
use innovati_os.Shell.Number.{is_empty, sh_atoi}
use innovati_os.Shell.Table.{Table, lookup}
use innovati_os.Shell.History.{History}
use innovati_os.Shell.Distance.{Row, sh_edit_distance}

-- `ALIAS_MAX_DEPTH`
abbrev pub alias_max_depth : ℕ
alias_max_depth = 4

abbrev pub semicolon : ℕ
semicolon = b';'

-- The user who is logged in, the globals of the shell, and the world.
pub record Session {ℓ} (W : Type ℓ) : Type ℓ where
  pub user : User
  pub vars : Table
  pub aliases : Table
  pub history : History
  pub show_suggestions : Bool
  pub cmd_number : ℕ
  pub exit : Bool
  pub world : W

-- The handler, or `cmd_repeat`.
pub data Action {ℓ} (W : Type ℓ) : Type ℓ where
  run : (Session W → Str → Session W) → Action W
  repeats : Action W

-- `shell_cmd_t`, without the description
pub record Command {ℓ} (W : Type ℓ) : Type ℓ where
  pub name : Str
  pub action : Action W
  pub admin_only : Bool

-- What the shell itself prints; the last one with the command that it suggests.
pub data Message : Type 0 where
  too_deep : Message
  ambiguous : Str → List Str → Message
  denied : Str → Message
  unknown : Str → Option Str → Message
  repeat_usage : Message
  bad_count : Message
  no_previous : Message
  recalled : Str → Message

-- `undefined` is a count that overflows an `int`.
pub data Outcome {ℓ} (W : Type ℓ) : Type ℓ where
  done : Session W → Outcome W
  undefined : Outcome W
  no_fuel : Outcome W

-- The line in place of an alias: the value and what is behind the first word.
unfoldable pub alias_text : Str → Str → Str
alias_text value [] = take (cmd_buf_max - 1) value
alias_text value (c ∷ rest) = take (cmd_buf_max - 1) (value ++ (blank ∷ c ∷ rest))

unfoldable pub expand_alias : Table → Str → Str
expand_alias aliases seg =
    let word = sh_first_word seg name_max in
    elim (lookup aliases word) [
      | none ↦ seg
      | some value ↦ alias_text value (skip_spaces (drop (sh_strlen word) seg))
    ]

unfoldable pub has_semi : Str → Bool
has_semi [] = false
has_semi (c ∷ seg) = if c == semicolon then true else has_semi seg

abbrev pub cons_first : ℕ → List Str → List Str
cons_first c [] = (c ∷ []) ∷ []
cons_first c (piece ∷ rest) = (c ∷ piece) ∷ rest

-- What stands between the semicolons.
unfoldable pub pieces : Str → List Str
pieces [] = [] ∷ []
pieces (c ∷ seg) = let rest = pieces seg in if c == semicolon then [] ∷ rest else cons_first c rest

-- The piece in its buffer, without the blanks in front.
abbrev pub trimmed : Str → Str
trimmed piece = skip_spaces (take (cmd_buf_max - 1) piece)

-- The command that a segment means.
pub data Choice {ℓ} (W : Type ℓ) : Type ℓ where
  command : Command W → Str → Choice W
  one_of : Str → List Str → Choice W
  none_of : Choice W

module _ {ℓ} {W : Type ℓ} where
  -- `if (g_shell_exit) return`, or else the rest.
  unfoldable pub unless_exit : (Session W → Outcome W) → Outcome W → Outcome W
  unless_exit next undefined = Outcome.undefined
  unless_exit next no_fuel = Outcome.no_fuel
  unless_exit next (done s) = if s.exit then Outcome.done s else next s

  -- The loop over the pieces, each of which `process` runs.
  unfoldable pub run_pieces : (Str → Session W → Outcome W) → List Str → Session W → Outcome W
  run_pieces process [] s = Outcome.done s
  run_pieces process (piece ∷ rest) s =
      if is_empty (trimmed piece)
      then run_pieces process rest s
      else unless_exit (run_pieces process rest) (process (trimmed piece) s)

  -- The loop over the commands with `cmd_match`.
  unfoldable pub first_match : List (Command W) → Str → Option (Command W × Str)
  first_match [] seg = none
  first_match (c ∷ cs) seg = elim (cmd_match seg c.name) [
    | some args ↦ some (c, args)
    | none ↦ first_match cs seg
  ]

  -- The loop that collects the candidates for a prefix.
  unfoldable pub candidates : List (Command W) → Str → List (Command W)
  candidates [] word = []
  candidates (c ∷ cs) word =
      let rest = candidates cs word in
      if ltb (sh_strlen word) (sh_strlen c.name) && begins word c.name then c ∷ rest else rest

  abbrev pub names : List (Command W) → List Str
  names [] = []
  names (c ∷ cs) = c.name ∷ names cs

  abbrev pub choose : Str → Str → List (Command W) → Choice W
  choose seg word [] = Choice.none_of
  choose seg word (c ∷ []) = Choice.command c (skip_spaces (drop (sh_strlen word) seg))
  choose seg word (c ∷ d ∷ cs) = Choice.one_of word (names (c ∷ d ∷ cs))

  unfoldable pub resolve : List (Command W) → Str → Choice W
  resolve cmds seg =
      let word = sh_first_word seg 16 in
      elim (first_match cmds seg) [
        | some (c, args) ↦ Choice.command c args
        | none ↦ if is_empty word then Choice.none_of else choose seg word (candidates cmds word)
      ]

  -- The loop that looks for the nearest name, from the best one so far.
  unfoldable pub nearest : Row → Row → Str → List (Command W) → ℕ → Option Str → ℕ × Option Str
  nearest previous current word [] best_dist best = (best_dist, best)
  nearest previous current word (c ∷ cs) best_dist best =
      let d = sh_edit_distance previous current word c.name in
      if ltb d best_dist
      then nearest previous current word cs d (some c.name)
      else nearest previous current word cs best_dist best

  unfoldable pub suggestion : Row → Row → List (Command W) → Str → Option Str
  suggestion previous current cmds seg =
      let (best_dist, best) = nearest previous current (sh_first_word seg 16) cmds 99 none in
      if ltb 0 best_dist && leb best_dist 2 then best else none

  -- The loop of `cmd_repeat`, with `left` runs to go.
  unfoldable pub run_times : (Session W → Outcome W) → ℕ → Session W → Outcome W
  run_times again zero s = Outcome.done s
  run_times again (suc left) s = unless_exit (run_times again left) (again s)

  module _ (report : Message → W → W) where
    unfoldable pub say : Message → Session W → Session W
    say m s = record s { world = report m s.world }

    -- `n <= 0 || n > 50`, and the loop.
    abbrev pub repeat_count : (Session W → Outcome W) → Option ℤ → Session W → Outcome W
    repeat_count again none s = Outcome.undefined
    repeat_count again (some (ℤ.negsuc n)) s = Outcome.done (say Message.bad_count s)
    repeat_count again (some (ℤ.pos n)) s =
        if (n == 0) || ltb 50 n then Outcome.done (say Message.bad_count s) else run_times again n s

    -- `process` is `process_segment` at the depth 1.
    unfoldable pub cmd_repeat : (Str → Session W → Outcome W) → Str → Session W → Outcome W
    cmd_repeat process args s =
        let (count_str, behind) = word_until blank (name_max - 1) (skip_spaces args) in
        let rest = skip_spaces behind in
        if is_empty count_str || is_empty rest
        then Outcome.done (say Message.repeat_usage s)
        else repeat_count (process rest) (sh_atoi count_str) s

    abbrev pub act : (Str → Session W → Outcome W) → Action W → Str → Session W → Outcome W
    act process (run handler) args s = Outcome.done (handler s args)
    act process repeats args s = cmd_repeat process args s

    -- The end of `process_segment`, with `suggest` for the command that an unknown one may mean.
    unfoldable pub perform :
        (Str → Option Str) → (Str → Session W → Outcome W) → Str → Choice W → Session W → Outcome W
    perform suggest process seg (one_of word could) s =
        Outcome.done (say (Message.ambiguous word could) s)
    perform suggest process seg none_of s =
        Outcome.done
          (say (Message.unknown seg (if s.show_suggestions then suggest seg else none)) s)
    perform suggest process seg (command c args) s =
        if c.admin_only && not s.user.is_admin
        then Outcome.done (say (Message.denied c.name) s)
        else act process c.action args s

    -- `previous` and `current` are what the rows of `sh_edit_distance` hold before.
    module _ (previous current : Row) (cmds : List (Command W)) where
      -- `g_cmd_number++`
      abbrev pub count_command : Session W → Session W
      count_command s = record s { cmd_number = u32 (s.cmd_number + 1) }

      unfoldable pub process_segment : ℕ → ℕ → Str → Session W → Outcome W
      process_segment zero depth raw_seg s = Outcome.no_fuel
      process_segment (suc fuel) depth raw_seg s =
          let seg = expand_alias s.aliases raw_seg in
          if ltb alias_max_depth depth
          then Outcome.done (say Message.too_deep s)
          else if has_semi seg
          then run_pieces (process_segment fuel (depth + 1)) (pieces seg) s
          else perform (suggestion previous current cmds) (process_segment fuel 1) seg
              (resolve cmds seg) (count_command s)
