-- ===== src/Shell/Number/RoundTrip.antt =====
-- Printing and reading numbers.
use innovati_os.Base.{
  ℕ, zero, suc, ◌+◌, ◌-◌, ◌*◌, ◌/◌, ◌%◌, ◌^◌, ◌≤◌, ◌<◌, ◌≡◌, ap, ◌∙◌, Bool, true, false, none, some,
  [], ◌∷◌, ◌==◌, if◌then◌else◌, arith, length, ℕ_discrete,
}
use innovati_os.Strings.{ℤ}
use innovati_os.Vfs.{Str}
use innovati_os.Vfs.Render.{take_all}
use innovati_os.Shell.Text.{sh_copy}
use innovati_os.Shell.Number.{
  emit_digits, sh_uint_to_str, sh_int_to_str, int_max, is_digit, atoi_from, sh_atoi, plus, minus,
}

length-emit_digits : (left n : ℕ) (tmp : Str) → length (emit_digits left n tmp) ≤ left + length tmp
unfolding emit_digits
length-emit_digits zero n tmp = omega arith
length-emit_digits (suc left) n tmp =
    ground (arith, length-emit_digits left (n / 10) ((b'0' + n % 10) ∷ tmp))

-- Reading the digits in front of `tmp` leads to `n`.
atoi_from-emit_digits :
    (left n : ℕ) (tmp : Str)
    → n < 10 ^ left
    → n ≤ int_max
    → atoi_from (emit_digits left n tmp) 0 ≡ atoi_from tmp n
unfolding emit_digits atoi_from
atoi_from-emit_digits zero n tmp fits small = ground arith
atoi_from-emit_digits (suc left) n tmp fits small = elim (ℕ_discrete n 0) [
  | yes z ↦ ground arith
  | no pos ↦
      (let ih =
          atoi_from-emit_digits left (n / 10) ((b'0' + n % 10) ∷ tmp) (omega arith) (omega arith) in
        let back : n / 10 * 10 + (b'0' + n % 10 - b'0') ≡ n = omega arith in
        ground (arith, ih, back))
]

abbrev digits : ℕ → Str
digits n = if n == 0 then b'0' ∷ [] else emit_digits 11 n []

uncut : (n max : ℕ) → 12 ≤ max → sh_uint_to_str n max ≡ digits n
unfolding sh_uint_to_str sh_copy
uncut n max room = take_all (max - 1) (digits n) (ground (arith, length-emit_digits 11 n []))

atoi_from-digits : (n : ℕ) → n ≤ int_max → atoi_from (digits n) 0 ≡ some n
unfolding atoi_from
atoi_from-digits n small = elim (ℕ_discrete n 0) [
  | yes z ↦ ground arith
  | no pos ↦ ground (arith, atoi_from-emit_digits 11 n [] (omega arith) small)
]

-- The first character of the digits is a digit.
starts_digit : Str → Bool
starts_digit [] = false
starts_digit (c ∷ s) = is_digit c

emit_digits-starts_digit :
    (left n : ℕ) (c : ℕ) (tmp : Str)
    → is_digit c ≡ true
    → starts_digit (emit_digits left n (c ∷ tmp)) ≡ true
unfolding emit_digits starts_digit
emit_digits-starts_digit zero n c tmp e = e
emit_digits-starts_digit (suc left) n c tmp e = elim (ℕ_discrete n 0) [
  | yes z ↦ ground (arith, e)
  | no pos ↦
      ground
        (arith, emit_digits-starts_digit left (n / 10) (b'0' + n % 10) (c ∷ tmp) (ground arith))
]

digits-starts_digit : (n : ℕ) → starts_digit (digits n) ≡ true
unfolding starts_digit emit_digits
digits-starts_digit n = elim (ℕ_discrete n 0) [
  | yes z ↦ ground arith
  | no pos ↦ ground (arith, emit_digits-starts_digit 10 (n / 10) (b'0' + n % 10) [] (ground arith))
]

sh_atoi-plain :
    (s : Str)
    → starts_digit s ≡ true
    → sh_atoi s ≡ (elim (atoi_from s 0) [ none ↦ none | some n ↦ some (ℤ.pos n) ])
unfolding sh_atoi starts_digit
sh_atoi-plain [] e = absurd (ground (arith, e))
sh_atoi-plain (c ∷ s) e = ground (arith, e)

sh_atoi-minus : (n : ℕ) → n + 1 ≤ int_max → sh_atoi (b'-' ∷ digits (n + 1)) ≡ some (ℤ.negsuc n)
unfolding sh_atoi
sh_atoi-minus n small = ground (arith, atoi_from-digits (n + 1) small)

-- For every number from -(2^31 - 1) to 2^31 - 1, sh_atoi of the text that sh_int_to_str writes
-- into 16 bytes is the number, without an overflow.
pub sh_atoi-sh_int_to_str :
    (x : ℤ) → plus x ≤ int_max → minus x ≤ int_max → sh_atoi (sh_int_to_str x 16) ≡ some x
unfolding sh_int_to_str
sh_atoi-sh_int_to_str (ℤ.pos n) small _ =
    ap sh_atoi (uncut n 16 (omega arith))
    ∙ sh_atoi-plain (digits n) (digits-starts_digit n)
    ∙ ground (arith, atoi_from-digits n small)
sh_atoi-sh_int_to_str (ℤ.negsuc n) _ small =
    ap (λ s. sh_atoi (b'-' ∷ s)) (uncut (n + 1) 15 (omega arith)) ∙ sh_atoi-minus n small
