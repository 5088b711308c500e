-- ===== src/Shell/Text.antt =====
-- The string helpers of the shell.
use innovati_os.Base.{
  ℕ, zero, suc, ◌+◌, ◌-◌, Bool, true, false, ◌&&◌, Option, none, some, [], ◌∷◌, ◌==◌, if◌then◌else◌,
  take,
}
use innovati_os.Vfs.{Str}

abbrev pub cmd_buf_max : ℕ
cmd_buf_max = 256

-- `NAME_MAX`
abbrev pub name_max : ℕ
name_max = 16

-- `VALUE_MAX`
abbrev pub value_max : ℕ
value_max = 64

abbrev pub blank : ℕ
blank = b' '

unfoldable pub sh_strlen : Str → ℕ
sh_strlen [] = 0
sh_strlen (c ∷ s) = sh_strlen s + 1

-- What `sh_copy` leaves in a buffer of `max` bytes.
unfoldable pub sh_copy : Str → ℕ → Str
sh_copy src max = take (max - 1) src

unfoldable pub sh_streq : Str → Str → Bool
sh_streq [] [] = true
sh_streq [] (y ∷ b) = false
sh_streq (x ∷ a) [] = false
sh_streq (x ∷ a) (y ∷ b) = if x == y then sh_streq a b else false

-- The loop over `j` of `sh_contains` and its like: the second string begins with the first.
unfoldable pub begins : Str → Str → Bool
begins [] hay = true
begins (y ∷ needle) [] = false
begins (y ∷ needle) (x ∷ hay) = if x == y then begins needle hay else false

-- The outer loop of `sh_contains`.
unfoldable pub contains_from : Str → Str → Bool
contains_from [] needle = false
contains_from (x ∷ hay) needle =
    let rest = contains_from hay needle in if begins needle (x ∷ hay) then true else rest

unfoldable pub sh_contains : Str → Str → Bool
sh_contains hay needle = if sh_strlen needle == 0 then true else contains_from hay needle

-- `name` points into a longer string, of which `len` characters count.
unfoldable pub name_eq : Str → ℕ → Str → Bool
name_eq name len lit = (sh_strlen lit == len) && begins lit name

-- `while (s[i] && s[i] != stop && i + 1 < max) out[i] = s[i]`, with `left` = `max - 1 - i`, and
-- what is left of the string.
unfoldable pub word_until : ℕ → ℕ → Str → Str × Str
word_until stop zero s = ([], s)
word_until stop (suc left) [] = ([], [])
word_until stop (suc left) (c ∷ s) =
    let (out, rest) = word_until stop left s in if c == stop then ([], c ∷ s) else (c ∷ out, rest)

unfoldable pub sh_first_word : Str → ℕ → Str
sh_first_word cmd max = (word_until blank (max - 1) cmd).0

-- `prog_skip_spaces`
unfoldable pub skip_spaces : Str → Str
skip_spaces [] = []
skip_spaces (c ∷ s) = if c == blank then skip_spaces s else c ∷ s

-- The two words; the result of the C function is whether the first one is not empty.
unfoldable pub split_two_words : Str → ℕ → ℕ → Str × Str
split_two_words args amax bmax =
    let (a, rest) = word_until blank (amax - 1) (skip_spaces args) in
    (a, take (bmax - 1) (skip_spaces rest))

unfoldable pub after_equals : Str → Str → ℕ → Option (Str × Str)
after_equals name [] vmax = none
after_equals name (c ∷ s) vmax = if c == b'=' then some (name, take (vmax - 1) s) else none

-- `none` is the result 0: there is no `=` behind the name.
unfoldable pub split_kv : Str → ℕ → ℕ → Option (Str × Str)
split_kv args nmax vmax =
    let (name, rest) = word_until b'=' (nmax - 1) args in after_equals name rest vmax

-- `cmd_match`: the arguments, if the command's name is a word at the start.
unfoldable pub match_rest : Str → Option Str
match_rest [] = some []
match_rest (c ∷ s) = if c == blank then some (skip_spaces (c ∷ s)) else none

unfoldable pub cmd_match : Str → Str → Option Str
cmd_match cmd [] = match_rest cmd
cmd_match [] (y ∷ name) = none
cmd_match (x ∷ cmd) (y ∷ name) = if x == y then cmd_match cmd name else none
