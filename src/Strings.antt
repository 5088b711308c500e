-- ===== src/Strings.antt =====
-- The memory and string functions of kernel/src/lib/lib.c, over a memory that is a function from
-- the address to the byte. A pointer is an address; the objects do not reach the end of the
-- address space. A loop that runs up to a NUL has fuel, and `none` is the end of the fuel. The
-- copies return their first argument and here the memory.
pub mod Copy
pub mod Text
pub mod Compare
pub mod Concat
mod Tests
use innovati_os.Base.{
  ℕ, zero, suc, ◌+◌, ◌-◌, ◌%◌, Bool, true, false, ◌||◌, Option, none, some, ◌==◌, ltb, leb,
  if◌then◌else◌, update, u8,
}

abbrev pub Bytes : Type 0
Bytes = ℕ → ℕ

-- `for (i...; i < n; i++) d[i] = s[i]`, with `left` = `n - i`.
unfoldable pub copy_up : Bytes → ℕ → ℕ → ℕ → ℕ → Bytes
copy_up m dst src zero i = m
copy_up m dst src (suc left) i = copy_up (update m (dst + i) (m (src + i))) dst src left (i + 1)

-- `for (i = n; i > 0; i--) d[i - 1] = s[i - 1]`
unfoldable pub copy_down : Bytes → ℕ → ℕ → ℕ → Bytes
copy_down m dst src zero = m
copy_down m dst src (suc i) = copy_down (update m (dst + i) (m (src + i))) dst src i

unfoldable pub k_memcpy : Bytes → ℕ → ℕ → ℕ → Bytes
k_memcpy m dst src n = copy_up m dst src n 0

-- `for (i...; i < n; i++) d[i] = v`, with `left` = `n - i`.
unfoldable pub fill : Bytes → ℕ → ℕ → ℕ → ℕ → Bytes
fill m dst v zero i = m
fill m dst v (suc left) i = fill (update m (dst + i) v) dst v left (i + 1)

unfoldable pub k_memset : Bytes → ℕ → ℕ → ℕ → Bytes
k_memset m dst val n = fill m dst (u8 val) n 0

unfoldable pub k_memmove : Bytes → ℕ → ℕ → ℕ → Bytes
k_memmove m dst src n =
    if (dst == src) || (n == 0)
    then m
    else if ltb dst src
    then copy_up m dst src n 0
    else copy_down m dst src n

-- `while (s[len]) len++`
unfoldable pub len_from : ℕ → Bytes → ℕ → ℕ → Option ℕ
len_from zero m s len = none
len_from (suc fuel) m s len =
    let rest = len_from fuel m s (len + 1) in if m (s + len) == 0 then some len else rest

unfoldable pub k_strlen : ℕ → Bytes → ℕ → Option ℕ
k_strlen fuel m s = len_from fuel m s 0

-- The integers, for the result of a comparison.
pub data ℤ : Type 0 where
  pos : ℕ → ℤ
  negsuc : ℕ → ℤ

-- `(int)(u8)x - (int)(u8)y`
unfoldable pub diff : ℕ → ℕ → ℤ
diff x y = if leb y x then ℤ.pos (x - y) else ℤ.negsuc (y - x - 1)

unfoldable pub k_strcmp : ℕ → Bytes → ℕ → ℕ → Option ℤ
k_strcmp zero m a b = none
k_strcmp (suc fuel) m a b =
    let rest = k_strcmp fuel m (a + 1) (b + 1) in
    if m a == 0
    then some (diff (m a) (m b))
    else if m a == m b
    then rest
    else some (diff (m a) (m b))

-- The loop of `k_strncmp`, with `left` = `n - i`.
unfoldable pub k_strncmp : Bytes → ℕ → ℕ → ℕ → ℤ
k_strncmp m a b zero = ℤ.pos 0
k_strncmp m a b (suc left) =
    if m a == m b
    then (if m a == 0 then ℤ.pos 0 else k_strncmp m (a + 1) (b + 1) left)
    else diff (m a) (m b)

-- `while ((*d++ = *src++)) {}`
unfoldable pub k_strcpy : ℕ → Bytes → ℕ → ℕ → Option Bytes
k_strcpy zero m dst src = none
k_strcpy (suc fuel) m dst src =
    let m' = update m dst (m src) in
    let rest = k_strcpy fuel m' (dst + 1) (src + 1) in if m src == 0 then some m' else rest

-- The loop over `i < n && src[i] != 0` of `k_strncpy` and `k_strncat`, with `left` = `n - i`, and
-- the `i` at its end.
unfoldable pub copy_text : Bytes → ℕ → ℕ → ℕ → ℕ → Bytes × ℕ
copy_text m dst src zero i = (m, i)
copy_text m dst src (suc left) i =
    if m (src + i) == 0
    then (m, i)
    else copy_text (update m (dst + i) (m (src + i))) dst src left (i + 1)

unfoldable pub k_strncpy : Bytes → ℕ → ℕ → ℕ → Bytes
k_strncpy m dst src n = let (m', i) = copy_text m dst src n 0 in fill m' dst 0 (n - i) i

unfoldable pub k_strncat : ℕ → Bytes → ℕ → ℕ → ℕ → Option Bytes
k_strncat fuel m dst src n = elim (k_strlen fuel m dst) [
  | none ↦ none
  | some len ↦ (let (m', i) = copy_text m (dst + len) src n 0 in some (update m' (dst + len + i) 0))
]
