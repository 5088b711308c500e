-- ===== src/Base/Bits.antt =====
-- One bit of a byte: setting, clearing and testing it with the operators of C, and their laws,
-- checked at all bytes and all bits.
use Prim.Native.Nat.{ℕ, zero, suc, ◌-◌, ◌/◌, ◌^◌, ◌<◌, bit_and, bit_or}
use mathlib.Core.Path.{◌≡◌, refl}
use mathlib.Core.Bool.{Bool, true, ◌&&◌}
use native.Mathlib.Omega.{arith}
use innovati_os.Base.Tests.{◌==◌, ltb, if◌then◌else◌, ==_iff}

-- `b | (1 << k)`
unfoldable pub set_bit : ℕ → ℕ → ℕ
set_bit b k = bit_or b (2 ^ k)

-- `b & (u8)~(1 << k)`
unfoldable pub clear_bit : ℕ → ℕ → ℕ
clear_bit b k = bit_and b (255 - 2 ^ k)

-- `(b >> k) & 1`
unfoldable pub test_bit : ℕ → ℕ → ℕ
test_bit b k = bit_and (b / 2 ^ k) 1

-- A test that holds of all numbers below the bound.
unfoldable pub holds_below : ℕ → (ℕ → Bool) → Bool
holds_below zero test = true
holds_below (suc bound) test = test bound && holds_below bound test

pub holds_below_sound :
    (bound : ℕ) (test : ℕ → Bool) (value : ℕ)
    → holds_below bound test ≡ true
    → value < bound
    → test value ≡ true
unfolding holds_below
holds_below_sound zero test value all below = absurd (omega arith)
holds_below_sound (suc bound) test value all below =
    ground (arith, holds_below_sound bound test value)

-- `p` holds of all triples of a byte and two bit positions.
all_bits : (ℕ → ℕ → ℕ → Bool) → Bool
all_bits p = holds_below 256 (λ b. holds_below 8 (λ k. holds_below 8 (λ j. p b k j)))

all_bits_sound :
    (p : ℕ → ℕ → ℕ → Bool)
    → all_bits p ≡ true
    → (b k j : ℕ) → b < 256
    → k < 8
    → j < 8
    → p b k j ≡ true
unfolding all_bits
all_bits_sound p h b k j hb hk hj =
    holds_below_sound 8 (λ j. p b k j) j
      (holds_below_sound 8 (λ k. holds_below 8 (λ j. p b k j)) k
        (holds_below_sound 256 (λ b. holds_below 8 (λ k. holds_below 8 (λ j. p b k j))) b h hb) hk)
      hj

set_law : ℕ → ℕ → ℕ → Bool
set_law b k j = test_bit (set_bit b k) j == (if j == k then 1 else test_bit b j)

clear_law : ℕ → ℕ → ℕ → Bool
clear_law b k j = test_bit (clear_bit b k) j == (if j == k then 0 else test_bit b j)

set_table : all_bits set_law ≡ true
unfolding all_bits holds_below set_law set_bit test_bit
set_table = refl

clear_table : all_bits clear_law ≡ true
unfolding all_bits holds_below clear_law clear_bit test_bit
clear_table = refl

pub test_bit-set_bit :
    (b k j : ℕ)
    → b < 256
    → k < 8
    → j < 8
    → test_bit (set_bit b k) j ≡ (if j == k then 1 else test_bit b j)
unfolding set_law
test_bit-set_bit b k j hb hk hj = (==_iff _ _).0 (all_bits_sound set_law set_table b k j hb hk hj)

pub test_bit-clear_bit :
    (b k j : ℕ)
    → b < 256
    → k < 8
    → j < 8
    → test_bit (clear_bit b k) j ≡ (if j == k then 0 else test_bit b j)
unfolding clear_law
test_bit-clear_bit b k j hb hk hj =
    (==_iff _ _).0 (all_bits_sound clear_law clear_table b k j hb hk hj)

range_law : ℕ → ℕ → ℕ → Bool
range_law b k j = ltb (set_bit b k) 256 && ltb (clear_bit b k) 256 && ltb (test_bit b k) 2

range_table : all_bits range_law ≡ true
unfolding all_bits holds_below range_law set_bit clear_bit test_bit
range_table = refl

-- The results are bytes, and a tested bit is 0 or 1.
pub bit_bounds :
    (b k : ℕ) → b < 256 → k < 8 → (set_bit b k < 256) × (clear_bit b k < 256) × (test_bit b k < 2)
unfolding range_law
bit_bounds b k hb hk = ground (arith, all_bits_sound range_law range_table b k 0 hb hk)
