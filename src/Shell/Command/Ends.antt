-- ===== src/Shell/Command/Ends.antt =====
-- How deep the calls of `process_segment` go.
use innovati_os.Base.{
  ℕ, zero, suc, ◌+◌, ◌≤◌, ◌<◌, ◌≡◌, refl, inl, inr, Bool, true, false, not, ◌&&◌, Bool-cases,
  Option, List, [], ◌∷◌, ltb, if◌then◌else◌, All, arith,
}
use innovati_os.Vfs.{Str}
use innovati_os.Shell.Number.{is_empty}
use innovati_os.Shell.Distance.{Row}
use innovati_os.Shell.Command.{
  Session, Action, run, repeats, Command, Message, Outcome, done, undefined, no_fuel, Choice,
  command, one_of, none_of, alias_max_depth, expand_alias, has_semi, pieces, trimmed, unless_exit,
  run_pieces, resolve, suggestion, say, act, perform, count_command, process_segment,
}
use innovati_os.Shell.Command.Chosen.{Chosen, resolve-Chosen}

module _ {W : Type 0} where
  -- The action is not `cmd_repeat`.
  abbrev pub Runs : Action W → Type 0
  Runs (run handler) = Unit
  Runs repeats = ⊥

  abbrev pub Returns : Outcome W → Type 0
  Returns o = (s : Session W) × (o ≡ Outcome.done s)

  pub if-Returns :
      (b : Bool) (x y : Outcome W) → Returns x → Returns y → Returns (if b then x else y)
  if-Returns true x y hx hy = hx
  if-Returns false x y hx hy = hy

  unless_exit-Returns :
      (next : Session W → Outcome W) (o : Outcome W)
      → ((s : Session W) → Returns (next s))
      → Returns o
      → Returns (unless_exit next o)
  unfolding unless_exit
  unless_exit-Returns next undefined step (s, e) = absurd (ground (arith, e))
  unless_exit-Returns next no_fuel step (s, e) = absurd (ground (arith, e))
  unless_exit-Returns next (done s) step h =
      if-Returns s.exit (Outcome.done s) (next s) (s, refl) (step s)

  pub run_pieces-Returns :
      (process : Str → Session W → Outcome W)
      → ((piece : Str) (s : Session W) → Returns (process piece s))
      → (texts : List Str) (s : Session W) → Returns (run_pieces process texts s)
  unfolding run_pieces
  run_pieces-Returns process step [] s = (s, refl)
  run_pieces-Returns process step (piece ∷ rest) s =
      if-Returns (is_empty (trimmed piece)) (run_pieces process rest s)
        (unless_exit (run_pieces process rest) (process (trimmed piece) s))
        (run_pieces-Returns process step rest s)
        (unless_exit-Returns (run_pieces process rest) (process (trimmed piece) s)
          (run_pieces-Returns process step rest) (step (trimmed piece) s))

module _ {W : Type 0} (report : Message → W → W) (previous current : Row)
    (cmds : List (Command W)) where
  perform-Returns :
      (suggest : Str → Option Str) (process : Str → Session W → Outcome W) (seg : Str)
      (choice : Choice W)
      → Chosen (λ c. Runs c.action) choice
      → (s : Session W) → Returns (perform report suggest process seg choice s)
  unfolding perform
  perform-Returns suggest process seg (one_of word could) q s = (_, refl)
  perform-Returns suggest process seg none_of q s = (_, refl)
  perform-Returns suggest process seg (command c args) q s =
      if-Returns (c.admin_only && not s.user.is_admin)
        (Outcome.done (say report (Message.denied c.name) s)) (act report process c.action args s)
        (_, refl) (by_action c.action q)
    where
      by_action : (a : Action W) → Runs a → Returns (act report process a args s)
      by_action (run handler) keeps = (_, refl)
      by_action repeats keeps = absurd keeps

  -- Without the command `repeat` in the table, process_segment always ends, whatever the aliases
  -- are: from the depth d, any fuel that is positive and greater than 5 - d is enough.
  pub process_segment-done :
      (fuel depth : ℕ) (seg : Str) (s : Session W)
      → All (λ c. Runs c.action) cmds
      → 0 < fuel
      → alias_max_depth + 1 < depth + fuel
      → (s' : Session W) × (process_segment report previous current cmds fuel depth seg s
          ≡ Outcome.done s')
  unfolding process_segment
  process_segment-done zero depth seg s all some_fuel enough = absurd (omega arith)
  process_segment-done (suc fuel) depth raw_seg s all some_fuel enough =
      elim (Bool-cases (ltb alias_max_depth depth)) [
        | inl e ↦ (say report Message.too_deep s, ground (arith, e))
        | inr e ↦
            (let shallow : depth ≤ 4 = ground (arith, e) in
              let seg : Str = expand_alias s.aliases raw_seg in
              if-Returns (ltb alias_max_depth depth) (Outcome.done (say report Message.too_deep s))
                _ (_, refl)
                (if-Returns (has_semi seg)
                  (run_pieces (process_segment report previous current cmds fuel (depth + 1))
                    (pieces seg) s)
                  _
                  (run_pieces-Returns _
                    (λ piece s'.
                      process_segment-done fuel (depth + 1) piece s' all (omega (arith, shallow))
                        (omega (arith, shallow)))
                    (pieces seg) s)
                  (perform-Returns (suggestion previous current cmds) _ seg (resolve cmds seg)
                    (resolve-Chosen (λ c. Runs c.action) cmds seg all)
                    (count_command report previous current cmds s))))
      ]
