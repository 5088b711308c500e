-- ===== src/Pmm/Invariant.antt =====
-- The allocator's invariant.
use innovati_os.Base.{ℕ, ◌^◌, ◌≤◌, ◌<◌, ◌≡◌}
use innovati_os.Pmm.{Pmm, bitmap_test}
use innovati_os.Pmm.Bitmap.{IsBytes}
use innovati_os.Pmm.Count.{count_free}

-- The count is right, every page below the hint is in use, and the page numbers are those of a
-- 64-bit address space.
pub record IsValid (p : Pmm) : Type 0 where
  pub bytes : IsBytes p.bitmap
  pub counted : p.free_pages ≡ count_free p.bitmap p.total_pages
  pub below_hint : (i : ℕ) → i < p.scan_hint → bitmap_test p.bitmap i ≡ 1
  pub hint_in : p.scan_hint ≤ p.total_pages
  pub small : p.total_pages ≤ 2 ^ 52

abbrev pub IsFree : Pmm → ℕ → Type 0
IsFree p i = (i < p.total_pages) × (bitmap_test p.bitmap i ≡ 0)

-- Every page is in use.
abbrev pub IsFull : Pmm → Type 0
IsFull p = (i : ℕ) → i < p.total_pages → bitmap_test p.bitmap i ≡ 1

-- `i` is free, and the lowest page that is.
pub record IsLowestFree (p : Pmm) (i : ℕ) : Type 0 where
  pub within : i < p.total_pages
  pub free : bitmap_test p.bitmap i ≡ 0
  pub lowest : (j : ℕ) → j < i → bitmap_test p.bitmap j ≡ 1
