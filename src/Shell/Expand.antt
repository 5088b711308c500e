-- ===== src/Shell/Expand.antt =====
-- `var_lookup` and `sh_expand_vars`: the variables in a command line.
pub mod Full
use innovati_os.Base.{
  ℕ, zero, suc, ◌+◌, ◌-◌, Bool, true, false, not, ◌&&◌, ◌||◌, Option, none, some, List, [], ◌∷◌,
  ◌++◌, ◌==◌, ltb, leb, if◌then◌else◌, length, take, find_slot,
}
use innovati_os.Vfs.{Str}
use innovati_os.Users.{User}
use innovati_os.Shell.Text.{name_eq}
use innovati_os.Shell.Number.{sh_uint_to_str}
use innovati_os.Shell.Table.{Pair, Table, table_size}

-- What the lookup reads: the variables, the user and `g_cmd_number`.
pub record Env : Type 0 where
  pub vars : Table
  pub user : User
  pub cmd_number : ℕ

abbrev pub user_var : Str
user_var = b'U' ∷ b'S' ∷ b'E' ∷ b'R' ∷ []

abbrev pub admin_var : Str
admin_var = b'A' ∷ b'D' ∷ b'M' ∷ b'I' ∷ b'N' ∷ []

abbrev pub cmdnum_var : Str
cmdnum_var = b'C' ∷ b'M' ∷ b'D' ∷ b'N' ∷ b'U' ∷ b'M' ∷ []

abbrev pub is_var : Str → ℕ → Pair → Bool
is_var name len p = p.used && name_eq name len p.name

-- `name` points into the command line, and `len` of its characters count.
unfoldable pub var_lookup : Env → Str → ℕ → Option Str
var_lookup env name len =
    if name_eq name len user_var
    then some env.user.username
    else if name_eq name len admin_var
    then some ((if env.user.is_admin then b'1' else b'0') ∷ [])
    else if name_eq name len cmdnum_var
    then some (sh_uint_to_str env.cmd_number 12)
    else elim (find_slot (is_var name len) env.vars table_size 0) [
      | some i ↦ some (env.vars i).value
      | none ↦ none
    ]

abbrev pub is_letter : ℕ → Bool
is_letter c = (c == b'_') || ((leb b'A' c && leb c b'Z') || (leb b'a' c && leb c b'z'))

abbrev pub is_name_char : ℕ → Bool
is_name_char c = is_letter c || (leb b'0' c && leb c b'9')

-- `is_var_start`, at the character `c` in front of `s`.
unfoldable pub is_var_start : ℕ → Str → Bool
is_var_start c [] = false
is_var_start c (d ∷ s) = (c == b'$') && is_letter d

-- The loop that finds the end of the name: its length, and what is behind it.
unfoldable pub name_end : Str → ℕ × Str
name_end [] = (0, [])
name_end (c ∷ s) =
    let (len, rest) = name_end s in if is_name_char c then (len + 1, rest) else (0, c ∷ s)

unfoldable pub value_of : Env → Str → ℕ → Str
value_of env name len = elim (var_lookup env name len) [ none ↦ [] | some value ↦ value ]

abbrev pub then_text : Str → Option Str → Option Str
then_text text none = none
then_text text (some more) = some (text ++ more)

-- The loop, with `room` = `max - 1 - oi`: what it appends to `out`. `none` is the end of the fuel.
unfoldable pub expand : ℕ → Env → Str → ℕ → Option Str
expand zero env s room = none
expand (suc fuel) env [] room = some []
expand (suc fuel) env (c ∷ s) zero = some []
expand (suc fuel) env (c ∷ s) (suc room) =
    let (len, rest) = name_end s in
    let value = take (suc room) (value_of env s len) in
    let behind = expand fuel env rest (suc room - length value) in
    let next = expand fuel env s room in
    if is_var_start c s then then_text value behind else then_text (c ∷ []) next

unfoldable pub sh_expand_vars : ℕ → Env → Str → ℕ → Option Str
sh_expand_vars fuel env s max = expand fuel env s (max - 1)
