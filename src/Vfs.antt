-- ===== src/Vfs.antt =====
-- Paths and the current directory, kernel/src/fs/vfs.c.
--
-- A C string is the list of its characters before the NUL. A buffer of 256 bytes holds a string of
-- at most 255; `none` says that the C code leaves a buffer without its NUL or writes past its end.
-- The functions of kernel/src/lib/lib.c that the code calls are those of Strings on such strings.
pub mod Split
pub mod Canonical
pub mod Render
pub mod Resolve
pub mod Walk
pub mod Walks
mod Short
pub mod Cwd
mod Tests
use innovati_os.Base.{
  ℕ, zero, suc, ◌+◌, ◌-◌, Bool, true, false, not, ◌&&◌, Option, none, some, List, [], ◌∷◌, ◌++◌,
  ◌==◌, ltb, if◌then◌else◌, length, get_or, take,
}
use innovati_os.Strings.{ℤ}
use innovati_os.Strings.Compare.{text_order}

abbrev pub Str : Type 0
Str = List ℕ

abbrev pub buffer_size : ℕ
buffer_size = 256

abbrev pub stack_size : ℕ
stack_size = 32

-- The string fits into its buffer.
unfoldable pub fit : Str → Option Str
fit s = if ltb (length s) buffer_size then some s else none

-- `k_strncat(d, s, 256)`
unfoldable pub append : Str → Str → Option Str
append d s = fit (d ++ take buffer_size s)

-- `k_strcmp(s, t) == 0`
unfoldable pub same_text : Str → Str → Bool
same_text s t = elim (text_order s t) [ ℤ.pos n ↦ n == 0 | ℤ.negsuc n ↦ false ]

abbrev pub slash : ℕ
slash = b'/'

abbrev pub dot : Str
dot = b'.' ∷ []

abbrev pub dot_dot : Str
dot_dot = b'.' ∷ b'.' ∷ []

abbrev pub starts_slash : Str → Bool
starts_slash [] = false
starts_slash (c ∷ s) = c == slash

abbrev pub ends_slash : Str → Bool
ends_slash s = get_or s (length s - 1) 0 == slash

-- The part of `resolve_path` that fills `temp` for a name that does not begin with a slash.
unfoldable pub join_cwd : Str → Str → Option Str
join_cwd temp name =
    if ltb 0 (length temp) && not (ends_slash temp)
    then elim (append temp (slash ∷ [])) [ none ↦ none | some t ↦ append t name ]
    else append temp name

unfoldable pub fill_temp : Str → Str → Option Str
fill_temp g_cwd name =
    if starts_slash name
    then fit name
    else elim (fit g_cwd) [ none ↦ none | some temp ↦ join_cwd temp name ]

-- `while (*p == '/') p++`
unfoldable pub skip_slashes : Str → Str
skip_slashes [] = []
skip_slashes (c ∷ s) = if c == slash then skip_slashes s else c ∷ s

-- From `start` to the next slash, and what is behind that slash.
unfoldable pub next_component : Str → Str × Str
next_component [] = ([], [])
next_component (c ∷ s) =
    let (start, p) = next_component s in if c == slash then ([], s) else (c ∷ start, p)

-- `top--`
unfoldable pub drop_last : List Str → List Str
drop_last [] = []
drop_last (x ∷ []) = []
drop_last (x ∷ y ∷ xs) = x ∷ drop_last (y ∷ xs)

-- What one component does to the stack, whose top is the end of the list.
unfoldable pub enter : List Str → Str → List Str
enter stack start =
    if same_text start dot
    then stack
    else if same_text start dot_dot
    then drop_last stack
    else if ltb (length stack) stack_size
    then stack ++ (start ∷ [])
    else stack

-- The loop over the components; `none` is the end of the fuel.
unfoldable pub collect : ℕ → Str → List Str → Option (List Str)
collect zero p stack = none
collect (suc fuel) p stack =
    let (start, rest) = next_component (skip_slashes p) in
    let more = collect fuel rest (enter stack start) in
    elim (skip_slashes p) [ [] ↦ some stack | c ∷ s ↦ more ]

-- The loop that writes the stack to `abspath`.
unfoldable pub write_stack : List Str → Str → Option Str
write_stack [] abspath = some abspath
write_stack (x ∷ xs) abspath = elim (append abspath (slash ∷ [])) [
  | none ↦ none
  | some a ↦ elim (append a x) [ none ↦ none | some b ↦ write_stack xs b ]
]

unfoldable pub write_path : List Str → Option Str
write_path [] = some (slash ∷ [])
write_path (x ∷ xs) = write_stack (x ∷ xs) []

unfoldable pub resolve_path : Str → Str → Option Str
resolve_path g_cwd name = elim (fill_temp g_cwd name) [
  | none ↦ none
  | some temp ↦ elim (collect (suc (length temp)) temp []) [
    | none ↦ none
    | some stack ↦ write_path stack
  ]
]

-- `temp[len-1] = 0`
unfoldable pub drop_char : Str → Str
drop_char [] = []
drop_char (c ∷ []) = []
drop_char (c ∷ d ∷ s) = c ∷ drop_char (d ∷ s)

-- `vfs_set_cwd`, for a path that is not NULL: the new `g_cwd`.
unfoldable pub set_cwd : Str → Str → Option Str
set_cwd g_cwd path = elim (resolve_path g_cwd path) [
  | none ↦ none
  | some temp ↦ some (if ltb 1 (length temp) && ends_slash temp then drop_char temp else temp)
]
