-- ===== src/Shell/Command/Loops.antt =====
-- An alias that repeats itself.
use innovati_os.Base.{
  ℕ, zero, suc, ◌+◌, ◌≤◌, ◌≡◌, refl, ap, ◌∙◌, Bool, false, not, ◌&&◌, Option, some, List, [], ◌∷◌,
  ltb, if◌then◌else◌, arith,
}
use innovati_os.Vfs.{Str}
use innovati_os.Shell.Text.{sh_first_word, word_until, skip_spaces, sh_strlen}
use innovati_os.Shell.Number.{sh_atoi, atoi_from}
use innovati_os.Shell.Distance.{Row}
use innovati_os.Shell.Table.{lookup}
use innovati_os.Shell.Command.{
  Session, Action, Command, Message, Outcome, Choice, alias_max_depth, expand_alias, has_semi,
  alias_text, unless_exit, run_times, run_pieces, pieces, resolve, suggestion, say, cmd_repeat, act,
  perform, count_command, process_segment,
}

-- The alias for a command that runs itself again.
abbrev pub repeat_r : Str
repeat_r = b'r' ∷ b'e' ∷ b'p' ∷ b'e' ∷ b'a' ∷ b't' ∷ b' ' ∷ b'1' ∷ b' ' ∷ b'r' ∷ []

module _ {W : Type 0} (report : Message → W → W) (previous current : Row)
    (cmds : List (Command W)) where
  perform_repeat :
      (suggest : Str → Option Str) (process : Str → Session W → Outcome W) (seg args : Str)
      (s : Session W) (c : Command W)
      → c.action ≡ Action.repeats
      → c.admin_only ≡ false
      → perform report suggest process seg (Choice.command c args) s
        ≡ cmd_repeat report process args s
  unfolding perform
  perform_repeat suggest process seg args s c again public =
      ap
        (λ b.
          if b && not s.user.is_admin
          then Outcome.done (say report (Message.denied c.name) s)
          else act report process c.action args s)
        public
      ∙ ap (λ a. act report process a args s) again

  cmd_repeat_once :
      (process : Str → Session W → Outcome W) (s : Session W)
      → process (b'r' ∷ []) s ≡ Outcome.no_fuel
      → cmd_repeat report process (b'1' ∷ b' ' ∷ b'r' ∷ []) s ≡ Outcome.no_fuel
  unfolding cmd_repeat sh_atoi atoi_from run_times unless_exit word_until skip_spaces
  cmd_repeat_once process s stuck = ap (unless_exit (λ s'. Outcome.done s')) stuck

  expand_r :
      (s : Session W)
      → lookup s.aliases (b'r' ∷ []) ≡ some repeat_r
      → expand_alias s.aliases (b'r' ∷ []) ≡ repeat_r
  unfolding expand_alias alias_text sh_first_word word_until sh_strlen skip_spaces
  expand_r s alias = ground (arith, alias)

  segment_step :
      (fuel depth : ℕ) (raw_seg seg : Str) (s : Session W)
      → depth ≤ alias_max_depth
      → expand_alias s.aliases raw_seg ≡ seg
      → has_semi seg ≡ false
      → process_segment report previous current cmds (suc fuel) depth raw_seg s
        ≡ perform report
            (suggestion previous current cmds)
            (process_segment report previous current cmds fuel 1)
            seg
            (resolve cmds seg)
            (count_command report previous current cmds s)
  unfolding process_segment
  segment_step fuel depth raw_seg seg s shallow expanded single =
      let deep : ltb alias_max_depth depth ≡ false = ground (arith, shallow) in
      ap (λ x. branch (ltb alias_max_depth depth) (has_semi x) x) expanded
      ∙ ap (λ b. branch b (has_semi seg) seg) deep
      ∙ ap (λ b. branch false b seg) single
    where
      branch : Bool → Bool → Str → Outcome W
      branch deep semi x =
          if deep
          then Outcome.done (say report Message.too_deep s)
          else if semi
          then run_pieces (process_segment report previous current cmds fuel (depth + 1)) (pieces x)
              s
          else perform report (suggestion previous current cmds)
              (process_segment report previous current cmds fuel 1) x (resolve cmds x)
              (count_command report previous current cmds s)

  -- With `repeat` it need not end: let the alias r stand for `repeat 1 r`, and let that line mean
  -- the command `repeat`, which is not admin-only. Then process_segment of `r`, from a depth of
  -- at most 4, runs out of any fuel: the limit on the depth never stops it.
  pub process_segment-no_fuel :
      (fuel depth : ℕ) (s : Session W) (c : Command W)
      → depth ≤ alias_max_depth
      → lookup s.aliases (b'r' ∷ []) ≡ some repeat_r
      → resolve cmds repeat_r ≡ Choice.command c (b'1' ∷ b' ' ∷ b'r' ∷ [])
      → c.action ≡ Action.repeats
      → c.admin_only ≡ false
      → process_segment report previous current cmds fuel depth (b'r' ∷ []) s ≡ Outcome.no_fuel
  unfolding process_segment has_semi
  process_segment-no_fuel zero depth s c shallow alias chosen again public = refl
  process_segment-no_fuel (suc fuel) depth s c shallow alias chosen again public =
      let next : Session W = count_command report previous current cmds s in
      let process = process_segment report previous current cmds fuel 1 in
      let suggest = suggestion previous current cmds in
      segment_step fuel depth (b'r' ∷ []) repeat_r s shallow (expand_r s alias) refl
      ∙ ap (λ choice. perform report suggest process repeat_r choice next) chosen
      ∙ perform_repeat suggest process repeat_r _ next c again public
      ∙ cmd_repeat_once process next
          (process_segment-no_fuel fuel 1 next c (omega arith) alias chosen again public)
