-- ===== src/Shell/Number.antt =====
-- Numbers in the shell. Arithmetic of `int` that overflows is undefined in C and is `none` here.
pub mod RoundTrip
use innovati_os.Base.{
  ℕ, zero, suc, ◌+◌, ◌-◌, ◌*◌, ◌/◌, ◌%◌, ◌^◌, Bool, true, false, not, ◌&&◌, ◌||◌, Option, none,
  some, List, [], ◌∷◌, ◌==◌, ltb, leb, if◌then◌else◌, length,
}
use innovati_os.Strings.{ℤ}
use innovati_os.Vfs.{Str}
use innovati_os.Shell.Text.{sh_copy, name_max, value_max, blank, word_until, skip_spaces, sh_streq}
use innovati_os.Base.{take}

-- The loop over the digits of `sh_uint_to_str`: `left` is `i + 1`, the free bytes in front.
unfoldable pub emit_digits : ℕ → ℕ → Str → Str
emit_digits zero n tmp = tmp
emit_digits (suc left) n tmp =
    if n == 0 then tmp else emit_digits left (n / 10) ((b'0' + n % 10) ∷ tmp)

unfoldable pub sh_uint_to_str : ℕ → ℕ → Str
sh_uint_to_str n max = sh_copy (if n == 0 then b'0' ∷ [] else emit_digits 11 n []) max

unfoldable pub sh_int_to_str : ℤ → ℕ → Str
sh_int_to_str (ℤ.pos n) max = sh_uint_to_str n max
sh_int_to_str (ℤ.negsuc n) max = b'-' ∷ (if ltb 1 max then sh_uint_to_str (n + 1) (max - 1) else [])

abbrev pub int_max : ℕ
int_max = 2 ^ 31 - 1

abbrev pub is_digit : ℕ → Bool
is_digit c = leb b'0' c && leb c b'9'

-- The loop of `sh_atoi`.
unfoldable pub atoi_from : Str → ℕ → Option ℕ
atoi_from [] result = some result
atoi_from (c ∷ s) result =
    let next = result * 10 + (c - b'0') in
    if is_digit c then (if leb next int_max then atoi_from s next else none) else some result

abbrev pub negate : ℕ → ℤ
negate n = if n == 0 then ℤ.pos 0 else ℤ.negsuc (n - 1)

unfoldable pub sh_atoi : Str → Option ℤ
sh_atoi [] = some (ℤ.pos 0)
sh_atoi (c ∷ s) =
    if c == b'-'
    then elim (atoi_from s 0) [ none ↦ none | some n ↦ some (negate n) ]
    else elim (atoi_from (if c == b'+' then s else c ∷ s) 0) [
      | none ↦ none
      | some n ↦ some (ℤ.pos n)
    ]

-- The parts of an integer, one of them 0.
abbrev pub plus : ℤ → ℕ
plus (ℤ.pos n) = n
plus (ℤ.negsuc n) = 0

abbrev pub minus : ℤ → ℕ
minus (ℤ.pos n) = 0
minus (ℤ.negsuc n) = n + 1

-- `p - m` as an `int`, if it is one.
abbrev pub int_of : ℕ → ℕ → Option ℤ
int_of p m =
    if leb m p
    then (if leb (p - m) int_max then some (ℤ.pos (p - m)) else none)
    else (if leb (m - p - 1) int_max then some (ℤ.negsuc (m - p - 1)) else none)

-- The quotient of C is rounded towards 0.
abbrev pub quotient : ℤ → ℤ → Option ℤ
quotient x y = int_of (plus x / plus y + minus x / minus y) (plus x / minus y + minus x / plus y)

-- What `cmd_calc` prints: a number or one of its messages. `undefined` is an overflow of `int`.
pub data Answer : Type 0 where
  number : ℤ → Answer
  usage : Answer
  division_by_zero : Answer
  unknown_operator : Answer
  undefined : Answer

abbrev pub defined : Option ℤ → Answer
defined none = Answer.undefined
defined (some r) = Answer.number r

unfoldable pub calc : Str → ℤ → ℤ → Answer
calc op x y =
    if sh_streq op (b'+' ∷ [])
    then defined (int_of (plus x + plus y) (minus x + minus y))
    else if sh_streq op (b'-' ∷ [])
    then defined (int_of (plus x + minus y) (minus x + plus y))
    else if sh_streq op (b'*' ∷ [])
    then defined
        (int_of (plus x * plus y + minus x * minus y) (plus x * minus y + minus x * plus y))
    else if sh_streq op (b'/' ∷ [])
    then (if (plus y == 0) && (minus y == 0)
        then Answer.division_by_zero
        else defined (quotient x y))
    else Answer.unknown_operator

abbrev pub is_empty : Str → Bool
is_empty [] = true
is_empty (c ∷ s) = false

unfoldable pub calc_words : Str → Str → Str → Answer
calc_words a op b =
    if is_empty a || (is_empty op || is_empty b) then Answer.usage else elim (sh_atoi a) [
      | none ↦ Answer.undefined
      | some x ↦ elim (sh_atoi b) [ none ↦ Answer.undefined | some y ↦ calc op x y ]
    ]

unfoldable pub cmd_calc : Str → Answer
cmd_calc args =
    let (a, rest) = word_until blank (value_max - 1) (skip_spaces args) in
    let (op, last) = word_until blank (name_max - 1) (skip_spaces rest) in
    calc_words a op (take (value_max - 1) (skip_spaces last))
