-- ===== src/Shell/Command/Chosen.antt =====
-- The command that a segment means, and the table that it is from.
use innovati_os.Base.{
  Bool, true, false, ◌&&◌, Option, none, some, List, [], ◌∷◌, ltb, if◌then◌else◌, All,
}
use innovati_os.Vfs.{Str}
use innovati_os.Shell.Text.{sh_strlen, sh_first_word, begins, cmd_match}
use innovati_os.Shell.Number.{is_empty}
use innovati_os.Shell.Command.{
  Command, Choice, command, one_of, none_of, first_match, candidates, choose, resolve,
}

module _ {W : Type 0} (Q : Command W → Type 0) where
  -- The command that a segment means is one of the table.
  abbrev pub Chosen : Choice W → Type 0
  Chosen (command c args) = Q c
  Chosen (one_of word could) = Unit
  Chosen none_of = Unit

  abbrev Found : Option (Command W × Str) → Type 0
  Found none = Unit
  Found (some (c, args)) = Q c

  first_match-Found : (cs : List (Command W)) (seg : Str) → All Q cs → Found (first_match cs seg)
  unfolding first_match
  first_match-Found [] seg all = tt
  first_match-Found (c ∷ cs) seg all =
      here (cmd_match seg c.name) (first_match cs seg) (first_match-Found cs seg all.1)
    where
      here :
          (o : Option Str) (rest : Option (Command W × Str))
          → Found rest
          → Found (elim o [ some args ↦ some (c, args) | none ↦ rest ])
      here none rest h = h
      here (some args) rest h = all.0

  candidates-All : (cs : List (Command W)) (word : Str) → All Q cs → All Q (candidates cs word)
  unfolding candidates
  candidates-All [] word all = tt
  candidates-All (c ∷ cs) word all =
      keep (ltb (sh_strlen word) (sh_strlen c.name) && begins word c.name) (candidates cs word)
        (candidates-All cs word all.1)
    where
      keep :
          (b : Bool) (rest : List (Command W)) → All Q rest → All Q (if b then c ∷ rest else rest)
      keep true rest h = (all.0, h)
      keep false rest h = h

  choose-Chosen : (seg word : Str) (cs : List (Command W)) → All Q cs → Chosen (choose seg word cs)
  choose-Chosen seg word [] all = tt
  choose-Chosen seg word (c ∷ []) all = all.0
  choose-Chosen seg word (c ∷ d ∷ cs) all = tt

  pub resolve-Chosen : (cs : List (Command W)) (seg : Str) → All Q cs → Chosen (resolve cs seg)
  unfolding resolve
  resolve-Chosen cs seg all =
      let word : Str = sh_first_word seg 16 in
      by_match (is_empty word) (choose seg word (candidates cs word))
        (choose-Chosen seg word (candidates cs word) (candidates-All cs word all))
        (first_match cs seg) (first_match-Found cs seg all)
    where
      by_match :
          (b : Bool) (other : Choice W)
          → Chosen other
          → (o : Option (Command W × Str)) → Found o
          → Chosen (elim o [
            | some (c, args) ↦ Choice.command c args
            | none ↦ if b then Choice.none_of else other
          ])
      by_match b other h (some (c, args)) q = q
      by_match true other h none q = tt
      by_match false other h none q = h
