-- ===== src/Pmm/Bitmap.antt =====
-- The bitmap as a set of pages: what `bitmap_set` and `bitmap_clear` do to every other page.
use innovati_os.Base.{
  ℕ, ◌/◌, ◌%◌, ◌<◌, ◌≡◌, ◌==◌, if◌then◌else◌, arith, test_bit-set_bit, test_bit-clear_bit,
  bit_bounds,
}
use innovati_os.Pmm.{Bitmap, bitmap_set, bitmap_clear, bitmap_test}

-- Every cell holds a byte.
abbrev pub IsBytes : Bitmap → Type 0
IsBytes m = (i : ℕ) → m i < 256

module _ {m : Bitmap} (bytes : IsBytes m) where
  pub bitmap_test-bitmap_set :
      (i j : ℕ) → bitmap_test (bitmap_set m i) j ≡ (if j == i then 1 else bitmap_test m j)
  unfolding bitmap_test bitmap_set
  bitmap_test-bitmap_set i j =
      ground (arith, bytes (i / 8), test_bit-set_bit (m (i / 8)) (i % 8) (j % 8))

  pub bitmap_test-bitmap_clear :
      (i j : ℕ) → bitmap_test (bitmap_clear m i) j ≡ (if j == i then 0 else bitmap_test m j)
  unfolding bitmap_test bitmap_clear
  bitmap_test-bitmap_clear i j =
      ground (arith, bytes (i / 8), test_bit-clear_bit (m (i / 8)) (i % 8) (j % 8))

  pub bitmap_set-IsBytes : (i : ℕ) → IsBytes (bitmap_set m i)
  unfolding bitmap_set
  bitmap_set-IsBytes i j = ground (arith, bytes j, bytes (i / 8), bit_bounds (m (i / 8)) (i % 8))

  pub bitmap_clear-IsBytes : (i : ℕ) → IsBytes (bitmap_clear m i)
  unfolding bitmap_clear
  bitmap_clear-IsBytes i j = ground (arith, bytes j, bytes (i / 8), bit_bounds (m (i / 8)) (i % 8))

  pub bitmap_test-lt : (i : ℕ) → bitmap_test m i < 2
  unfolding bitmap_test
  bitmap_test-lt i = ground (arith, bytes (i / 8), bit_bounds (m (i / 8)) (i % 8))
