-- ===== src/Shell/Command/LineEnds.antt =====
-- The end of a whole line of `shell_run`.
use innovati_os.Base.{
  ℕ, zero, suc, ◌-◌, ◌%◌, ◌≤◌, ◌<◌, ◌≡◌, refl, Bool, true, false, Option, none, some, List, [], ◌∷◌,
  ◌==◌, if◌then◌else◌, All, arith, length, take,
}
use innovati_os.Vfs.{Str}
use innovati_os.Shell.Text.{cmd_buf_max, sh_copy, sh_streq, skip_spaces}
use innovati_os.Shell.Number.{is_empty}
use innovati_os.Shell.Distance.{Row}
use innovati_os.Shell.History.{History, history_add, last_line}
use innovati_os.Shell.Expand.{sh_expand_vars}
use innovati_os.Shell.Expand.Full.{expand_lem}
use innovati_os.Shell.Command.{
  Session, Command, Message, Outcome, say, pieces, run_pieces, process_segment,
}
use innovati_os.Shell.Command.Ends.{
  Runs, Returns, if-Returns, run_pieces-Returns, process_segment-done,
}
use innovati_os.Shell.Command.Line.{env_of, run_command, run_line}

length-skip_spaces : (s : Str) → length (skip_spaces s) ≤ length s
unfolding skip_spaces
length-skip_spaces [] = omega arith
length-skip_spaces (c ∷ s) = ground (arith, length-skip_spaces s)

length-take_le : (n : ℕ) (s : Str) → length (take n s) ≤ n
length-take_le zero s = omega arith
length-take_le (suc n) [] = omega arith
length-take_le (suc n) (c ∷ s) = omega (arith, length-take_le n s)

-- A line of the history, if there is one, fits into its buffer.
abbrev Short : Option Str → Type 0
Short none = Unit
Short (some line) = length line < cmd_buf_max

last_line-Short : (h : History) → Short (last_line h)
unfolding last_line sh_copy
last_line-Short h = either (h.history_count == 0) (h.history_buf ((h.history_count - 1) % 16))
  where
    either : (b : Bool) (line : Str) → Short (if b then none else some (take 255 line))
    either true line = tt
    either false line = omega (arith, length-take_le 255 line)

module _ {W : Type 0} (report : Message → W → W) (previous current : Row) (cmds : List (Command W))
    (all : All (λ c. Runs c.action) cmds) (fuel : ℕ) (enough : cmd_buf_max ≤ fuel) where
  run_command-Returns :
      (cmd : Str) (s : Session W)
      → length cmd < cmd_buf_max
      → Returns (run_command report previous current cmds fuel cmd s)
  unfolding run_command sh_expand_vars
  run_command-Returns cmd s short =
      let (out, expands, run) =
        expand_lem fuel (env_of report previous current cmds s) cmd (omega (arith, enough)) in
      after (sh_expand_vars fuel (env_of report previous current cmds s) cmd cmd_buf_max)
        (take 255 out) (run 255)
    where
      after :
          (o : Option Str) (line : Str)
          → o ≡ some line
          → Returns (elim o [
            | none ↦ Outcome.no_fuel
            | some expanded ↦
                run_pieces
                  (process_segment report previous current cmds fuel 0)
                  (pieces expanded)
                  (record s { history = history_add s.history expanded })
          ])
      after none line e = absurd (ground (arith, e))
      after (some expanded) line e =
          run_pieces-Returns (process_segment report previous current cmds fuel 0)
            (λ piece s'.
              process_segment-done report previous current cmds fuel 0 piece s' all
                (omega (arith, enough)) (omega (arith, enough)))
            (pieces expanded) _

  recalled-Returns :
      (o : Option Str) (s : Session W)
      → Short o
      → Returns (elim o [
        | none ↦ Outcome.done (say report Message.no_previous s)
        | some last ↦
            run_command report previous current cmds fuel
              (skip_spaces last)
              (say report (Message.recalled (skip_spaces last)) s)
      ])
  recalled-Returns none s short = (_, refl)
  recalled-Returns (some last) s short =
      let less = length-skip_spaces last in
      run_command-Returns (skip_spaces last) _ (omega (arith, less, short))

  -- Without the command `repeat` in the table, the shell always finishes a line that fits into
  -- its buffer of 256 bytes, whatever the line, the variables, the aliases and the history are,
  -- `!!` included: any fuel from 256 on is enough.
  pub run_line-done :
      (line : Str) (s : Session W)
      → length line < cmd_buf_max
      → (s' : Session W) × (run_line report previous current cmds fuel line s ≡ Outcome.done s')
  unfolding run_line
  run_line-done line s short =
      let cmd : Str = skip_spaces line in
      let less = length-skip_spaces line in
      if-Returns (is_empty cmd) (Outcome.done s) _ (s, refl)
        (if-Returns (sh_streq cmd (b'!' ∷ b'!' ∷ [])) _
          (run_command report previous current cmds fuel cmd s)
          (recalled-Returns (last_line s.history) s (last_line-Short s.history))
          (run_command-Returns cmd s (omega (arith, less, short))))
