-- ===== src/Shell/Command/Line.antt =====
-- The loop of `shell_run` over the lines that the user types. The prompt, the banner and the
-- settings that it loads at the start are left out.
use innovati_os.Base.{ℕ, none, some, List, [], ◌∷◌, if◌then◌else◌}
use innovati_os.Vfs.{Str}
use innovati_os.Shell.Text.{cmd_buf_max, skip_spaces, sh_streq}
use innovati_os.Shell.Number.{is_empty}
use innovati_os.Shell.Distance.{Row}
use innovati_os.Shell.History.{history_add, last_line}
use innovati_os.Shell.Expand.{Env, sh_expand_vars}
use innovati_os.Shell.Command.{
  Session, Command, Message, Outcome, unless_exit, run_pieces, pieces, say, process_segment,
}

module _ {ℓ} {W : Type ℓ} (report : Message → W → W) (previous current : Row)
    (cmds : List (Command W)) where
  abbrev pub env_of : Session W → Env
  env_of s = record { vars = s.vars; user = s.user; cmd_number = s.cmd_number }

  -- A line without blanks in front: the variables, the history and the segments.
  unfoldable pub run_command : ℕ → Str → Session W → Outcome W
  run_command fuel cmd s = elim (sh_expand_vars fuel (env_of s) cmd cmd_buf_max) [
    | none ↦ Outcome.no_fuel
    | some expanded ↦
        run_pieces (process_segment report previous current cmds fuel 0) (pieces expanded)
          (record s { history = history_add s.history expanded })
  ]

  -- The body of the loop, with the line that `console_readline` has read.
  unfoldable pub run_line : ℕ → Str → Session W → Outcome W
  run_line fuel line s =
      let cmd = skip_spaces line in
      if is_empty cmd
      then Outcome.done s
      else if sh_streq cmd (b'!' ∷ b'!' ∷ [])
      then elim (last_line s.history) [
        | none ↦ Outcome.done (say report Message.no_previous s)
        | some last ↦
            run_command fuel (skip_spaces last) (say report (Message.recalled (skip_spaces last)) s)
      ]
      else run_command fuel cmd s

  -- The loop, over the lines that the user types until the end of the session.
  unfoldable pub run_lines : ℕ → List Str → Session W → Outcome W
  run_lines fuel [] s = Outcome.done s
  run_lines fuel (line ∷ lines) s = unless_exit (run_lines fuel lines) (run_line fuel line s)
