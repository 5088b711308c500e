-- ===== src/Shell/Table.antt =====
-- The two tables of names and values: the variables and the aliases. The C code is written out for
-- each of them, with the same statements.
pub mod Write
pub mod Lookup
use innovati_os.Base.{
  ℕ, zero, suc, ◌+◌, Bool, true, false, not, ◌&&◌, Option, none, some, List, [], ◌∷◌, ◌==◌,
  if◌then◌else◌, update, find_slot,
}
use innovati_os.Vfs.{Str}
use innovati_os.Shell.Text.{name_max, value_max, sh_copy, sh_streq, split_kv}
use innovati_os.Shell.Number.{is_empty}

-- `MAX_VARS` and `MAX_ALIASES`
abbrev pub table_size : ℕ
table_size = 8

-- `envvar_t` and `kv_t`
pub record Pair : Type 0 where
  pub name : Str
  pub value : Str
  pub used : Bool

abbrev pub Table : Type 0
Table = ℕ → Pair

abbrev pub has_name : Str → Pair → Bool
has_name name p = p.used && sh_streq p.name name

abbrev pub is_free : Pair → Bool
is_free p = not p.used

-- `OK.`, or one of the messages about an error.
pub data Reply : Type 0 where
  ok : Reply
  usage : Reply
  full : Reply
  no_such : Reply

-- The second loop of `cmd_export` and `cmd_alias`.
unfoldable pub add_pair : Table → Str → Str → Table × Reply
add_pair t name value = elim (find_slot is_free t table_size 0) [
  | none ↦ (t, Reply.full)
  | some i ↦ (
    update t i
        (record { name = sh_copy name name_max; value = sh_copy value value_max; used = true }),
    Reply.ok,
  )
]

-- Both loops.
unfoldable pub put_pair : Table → Str → Str → Table × Reply
put_pair t name value = elim (find_slot (has_name name) t table_size 0) [
  | some i ↦ (
    update t i (record { name = (t i).name; value = sh_copy value value_max; used = (t i).used }),
    Reply.ok,
  )
  | none ↦ add_pair t name value
]

-- `cmd_export`, and `cmd_alias` with arguments
unfoldable pub cmd_put : Table → Str → Table × Reply
cmd_put t args = elim (split_kv args name_max value_max) [
  | none ↦ (t, Reply.usage)
  | some (name, value) ↦ if is_empty name then (t, Reply.usage) else put_pair t name value
]

-- `cmd_unset` and `cmd_unalias`
unfoldable pub cmd_remove : Table → Str → Table × Reply
cmd_remove t args = elim (find_slot (has_name args) t table_size 0) [
  | none ↦ (t, Reply.no_such)
  | some i ↦
      (update t i (record { name = (t i).name; value = (t i).value; used = false }), Reply.ok)
]

-- The value of a name.
unfoldable pub lookup : Table → Str → Option Str
lookup t name = elim (find_slot (has_name name) t table_size 0) [
  | none ↦ none
  | some i ↦ some (t i).value
]
