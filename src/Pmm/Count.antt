-- ===== src/Pmm/Count.antt =====
-- The number of free pages among the first `n`.
use innovati_os.Base.{
  ℕ, zero, suc, ◌+◌, ◌-◌, ◌≤◌, ◌<◌, ◌≡◌, refl, ◌==◌, if◌then◌else◌, arith, ℕ_discrete,
}
use innovati_os.Pmm.{Bitmap, bitmap_set, bitmap_clear, bitmap_test}
use innovati_os.Pmm.Bitmap.{IsBytes, bitmap_test-bitmap_set, bitmap_test-bitmap_clear}

unfoldable pub count_free : Bitmap → ℕ → ℕ
count_free m zero = 0
count_free m (suc n) = count_free m n + (1 - bitmap_test m n)

pub count_free-le : (m : Bitmap) (n : ℕ) → count_free m n ≤ n
unfolding count_free
count_free-le m zero = omega arith
count_free-le m (suc n) = omega (arith, count_free-le m n)

-- Two bitmaps that agree on the first `n` pages have the same count.
pub count_free_ext :
    (m w : Bitmap) (n : ℕ)
    → ((i : ℕ) → i < n → bitmap_test m i ≡ bitmap_test w i)
    → count_free m n ≡ count_free w n
unfolding count_free
count_free_ext m w zero h = refl
count_free_ext m w (suc n) h =
    omega (arith, h n (omega arith), count_free_ext m w n (λ i p. h i (omega arith)))

pub count_free_full :
    (m : Bitmap) (n : ℕ) → ((i : ℕ) → i < n → bitmap_test m i ≡ 1) → count_free m n ≡ 0
unfolding count_free
count_free_full m zero h = refl
count_free_full m (suc n) h =
    omega (arith, h n (omega arith), count_free_full m n (λ i p. h i (omega arith)))

-- `w` is `m` but for page `i`, which is free in `m` and in use in `w`.
pub count_free-differ :
    (m w : Bitmap) (i n : ℕ)
    → bitmap_test m i ≡ 0
    → ((j : ℕ) → bitmap_test w j ≡ (if j == i then 1 else bitmap_test m j))
    → i < n
    → count_free m n ≡ count_free w n + 1
unfolding count_free
count_free-differ m w i zero free h lt = absurd (omega arith)
count_free-differ m w i (suc n) free h lt = elim (ℕ_discrete n i) [
  | yes e ↦
      (let same = count_free_ext m w n (λ j p. ground (arith, h j)) in ground (arith, h n, same))
  | no ne ↦ ground (arith, h n, count_free-differ m w i n free h)
]

module _ {m : Bitmap} (bytes : IsBytes m) (i n : ℕ) (within : i < n) where
  pub count_free-bitmap_set :
      bitmap_test m i ≡ 0 → count_free m n ≡ count_free (bitmap_set m i) n + 1
  count_free-bitmap_set free =
      count_free-differ m (bitmap_set m i) i n free (bitmap_test-bitmap_set bytes i) within

  pub count_free-bitmap_clear :
      bitmap_test m i ≡ 1 → count_free (bitmap_clear m i) n ≡ count_free m n + 1
  count_free-bitmap_clear used =
      count_free-differ (bitmap_clear m i) m i n
        (ground (arith, bitmap_test-bitmap_clear bytes i i))
        (λ j. ground (arith, bitmap_test-bitmap_clear bytes i j)) within
