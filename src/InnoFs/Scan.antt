-- ===== src/InnoFs/Scan.antt =====
-- Searching a sector of the bitmap.
use innovati_os.Base.{
  ℕ, zero, suc, ◌+◌, ◌*◌, ◌/◌, ◌%◌, ◌≤◌, ◌<◌, ◌≡◌, refl, sym, ap, ◌∙◌, ◌⊎◌, inl, inr, true, false,
  Option, none, some, ◌==◌, arith, ℕ_discrete, test_bit, bit_bounds, holds_below, holds_below_sound,
  ==_iff,
}
use mathlib.Core.Path.{ap₂}
use innovati_os.InnoFs.{Sector, find_bit, find_byte}

-- Every byte is one.
abbrev pub IsSector : Sector → Type 0
IsSector m = (a : ℕ) → m a < 256

find_bit_lem :
    (b left bit : ℕ)
    → b < 256
    → bit + left ≤ 8
    → ((find_bit b left bit ≡ none) × ((j : ℕ) → bit ≤ j → j < bit + left → test_bit b j ≡ 1))
      ⊎ ((k : ℕ) × (find_bit b left bit ≡ some k)
          × (bit ≤ k)
          × (k < bit + left)
          × (test_bit b k ≡ 0)
          × ((j : ℕ) → bit ≤ j → j < k → test_bit b j ≡ 1))
unfolding find_bit
find_bit_lem b zero bit byte le = inl (refl, λ j lo hi. absurd (omega arith))
find_bit_lem b (suc left) bit byte le =
    let range = bit_bounds b bit byte (omega arith) in
    elim (ℕ_discrete (test_bit b bit) 0) [
      | yes free ↦ inr (
        bit,
        ground (arith, free),
        omega arith,
        omega arith,
        free,
        λ j lo hi. absurd (omega arith),
      )
      | no used ↦ elim (find_bit_lem b left (bit + 1) byte (omega arith)) [
        | inl h ↦ inl (
          ground (arith, used, h.0),
          λ j lo hi. elim (ℕ_discrete j bit) [
            | yes same ↦ ap (test_bit b) same ∙ omega (arith, range, used)
            | no other ↦ h.1 j (omega arith) (omega arith)
          ],
        )
        | inr (k, run, lo, hi, free, first) ↦ inr (
          k,
          ground (arith, used, run),
          omega (arith, lo),
          omega (arith, hi),
          free,
          λ j above below. elim (ℕ_discrete j bit) [
            | yes same ↦ ap (test_bit b) same ∙ omega (arith, range, used)
            | no other ↦ first j (omega arith) below
          ],
        )
      ]
    ]

all_ones : holds_below 8 (λ j. test_bit 0xFF j == 1) ≡ true
unfolding holds_below test_bit
all_ones = refl

-- The bit of a sector.
abbrev pub bit_at : Sector → ℕ → ℕ
bit_at m n = test_bit (m (n / 8)) (n % 8)

-- The first clear bit from byte `byte` on.
pub find_byte_lem :
    (m : Sector) (left byte : ℕ)
    → IsSector m
    → ((find_byte m left byte ≡ none)
        × ((n : ℕ) → byte * 8 ≤ n → n < (byte + left) * 8 → bit_at m n ≡ 1))
      ⊎ ((k : ℕ) × (j : ℕ) × (find_byte m left byte ≡ some (k, j))
          × (byte ≤ k)
          × (k < byte + left)
          × (j < 8)
          × (bit_at m (k * 8 + j) ≡ 0)
          × ((n : ℕ) → byte * 8 ≤ n → n < k * 8 + j → bit_at m n ≡ 1))
unfolding find_byte
find_byte_lem m zero byte v = inl (refl, λ n lo hi. absurd (omega arith))
find_byte_lem m (suc left) byte v = elim (find_bit_lem (m byte) 8 0 (v byte) (omega arith)) [
  | inr (j, run, lo, hi, free, first) ↦
      (let some_clear : (m byte == 0xFF) ≡ false = not_full byte j (omega (arith, hi)) free in
        let at : (byte * 8 + j) / 8 ≡ byte = omega (arith, hi) in
        let bit : (byte * 8 + j) % 8 ≡ j = omega (arith, hi) in
        inr (
          byte,
          j,
          ground (arith, some_clear, run),
          omega arith,
          omega arith,
          omega (arith, hi),
          ap₂ (λ a b. test_bit (m a) b) at bit ∙ free,
          λ n above below.
              (let same : n / 8 ≡ byte = omega (arith, hi) in
                ap (λ a. test_bit (m a) (n % 8)) same
                ∙ first (n % 8) (omega arith) (omega (arith, hi))),
        ))
  | inl h ↦ elim (find_byte_lem m left (byte + 1) v) [
    | inl g ↦ inl (
      skip h.0 g.0,
      λ n lo hi. elim (ℕ_discrete (n / 8) byte) [
        | yes same ↦ ap (λ a. test_bit (m a) (n % 8)) same ∙ h.1 (n % 8) (omega arith) (omega arith)
        | no other ↦ g.1 n (omega arith) (omega arith)
      ],
    )
    | inr (k, j, run, lo, hi, small, free, first) ↦ inr (
      k,
      j,
      skip h.0 run,
      omega (arith, lo),
      omega (arith, hi),
      small,
      free,
      λ n above below. elim (ℕ_discrete (n / 8) byte) [
        | yes same ↦ ap (λ a. test_bit (m a) (n % 8)) same ∙ h.1 (n % 8) (omega arith) (omega arith)
        | no other ↦ first n (omega arith) below
      ],
    )
  ]
]
  where
    not_full : (a j : ℕ) → j < 8 → test_bit (m a) j ≡ 0 → (m a == 0xFF) ≡ false
    not_full a j lt free = elim (ℕ_discrete (m a) 0xFF) [
      | no other ↦ ground arith
      | yes full ↦
          (let one : test_bit 0xFF j ≡ 1 =
              (==_iff _ _).0 (holds_below_sound 8 (λ j. test_bit 0xFF j == 1) j all_ones lt) in
            absurd (omega (arith, sym (ap (λ b. test_bit b j) full) ∙ free, one)))
    ]

    skip :
        {o : Option (ℕ × ℕ)}
        → find_bit (m byte) 8 0 ≡ none
        → find_byte m left (byte + 1) ≡ o
        → find_byte m (suc left) byte ≡ o
    skip e f = ground (arith, e, f)
