-- ===== src/Shell/Command/Find.antt =====
-- What a line with a command's full name means.
use innovati_os.Base.{
  ◌≡◌, ◌≢◌, refl, ap, sym, ◌∙◌, none, some, List, [], ◌∷◌, ◌++◌, All, arith, ℕ_discrete,
}
use innovati_os.Vfs.{Str}
use innovati_os.Shell.Text.{blank, match_rest, cmd_match}
use innovati_os.Shell.Command.{Command, Choice, first_match, resolve}

abbrev pub IsWord : Str → Type 0
IsWord name = All (λ c. c ≢ blank) name

cmd_match_same : (name tail : Str) → cmd_match (name ++ tail) name ≡ match_rest tail
unfolding cmd_match
cmd_match_same [] tail = refl
cmd_match_same (x ∷ name) tail = ground (arith, cmd_match_same name tail)

cmd_match_other :
    (name other tail args : Str)
    → IsWord name
    → IsWord other
    → other ≢ name
    → match_rest tail ≡ some args
    → cmd_match (name ++ tail) other ≡ none
unfolding cmd_match match_rest
cmd_match_other [] [] tail args v w ne end = absurd (ne refl)
cmd_match_other (x ∷ name) [] tail args v w ne end = ground (arith, v.0)
cmd_match_other [] (y ∷ other) [] args v w ne end = refl
cmd_match_other [] (y ∷ other) (c ∷ tail) args v w ne end = elim (ℕ_discrete c blank) [
  | yes is_blank ↦ ground (arith, w.0, is_blank)
  | no letter ↦ absurd (ground (arith, end, letter))
]
cmd_match_other (x ∷ name) (y ∷ other) tail args v w ne end = elim (ℕ_discrete x y) [
  | yes same ↦
      (let rest =
          cmd_match_other name other tail args v.1 w.1
            (λ e. ne (ap (λ z. z ∷ other) (sym same) ∙ ap (λ zs. x ∷ zs) e)) end in
        ground (arith, same, rest))
  | no differs ↦ ground (arith, differs)
]

module _ {ℓ} {W : Type ℓ} where
  first_match_lem :
      (before after : List (Command W)) (c : Command W) (tail args : Str)
      → All (λ d. (d.name ≢ c.name) × IsWord d.name) before
      → IsWord c.name
      → match_rest tail ≡ some args
      → first_match (before ++ (c ∷ after)) (c.name ++ tail) ≡ some (c, args)
  unfolding first_match
  first_match_lem [] after c tail args others word end =
      let here = cmd_match_same c.name tail in ground (arith, here, end)
  first_match_lem (d ∷ before) after c tail args others word end =
      let not_d : cmd_match (c.name ++ tail) d.name ≡ none =
        cmd_match_other c.name d.name tail args word others.0.1 others.0.0 end in
      let rest = first_match_lem before after c tail args others.1 word end in
      ground (arith, not_d, rest)

  -- For a command without blanks in its name, and commands in front of it with other names
  -- without blanks, a line that is the name, followed by nothing or by a blank and arguments,
  -- means that command with those arguments, whatever commands come behind it; so a name that
  -- begins other names is not ambiguous.
  pub resolve_lem :
      (before after : List (Command W)) (c : Command W) (tail args : Str)
      → All (λ d. (d.name ≢ c.name) × IsWord d.name) before
      → IsWord c.name
      → match_rest tail ≡ some args
      → resolve (before ++ (c ∷ after)) (c.name ++ tail) ≡ Choice.command c args
  unfolding resolve
  resolve_lem before after c tail args others word end =
      ground (arith, first_match_lem before after c tail args others word end)
