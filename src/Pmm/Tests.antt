-- ===== src/Pmm/Tests.antt =====
-- Runs of the page allocator, and its theorems at concrete inputs.
use innovati_os.Base.{
  ℕ, zero, suc, ◌+◌, ◌*◌, ◌/◌, ◌≤◌, ◌<◌, ◌≡◌, refl, ◌⊎◌, ◌==◌, if◌then◌else◌, ◌&&◌, not, some, List,
  [], ◌∷◌, arith, set_bit, clear_bit, test_bit,
}
use mathlib.Core.Option
use innovati_os.Pmm.{
  scan, take_page, find_run, free_run, take_run, fill_used, release, release_all, reserve,
  bitmap_set, bitmap_clear, Pmm, Entry, page_size, alloc_page, alloc_pages, free_page, free_pages,
  init, bitmap_test, bitmap_home, highest_addr,
}
use innovati_os.Pmm.Count.{count_free}
use innovati_os.Pmm.Invariant.{IsValid, IsFree, IsFull, IsLowestFree}
use innovati_os.Pmm.Page.{Takes, Frees, alloc_page_lem, free_page_lem}
use innovati_os.Pmm.Pages.{IsFirstRun, NoRun, TakesRun, FreesRun, alloc_pages_lem, free_pages_lem}
use innovati_os.Pmm.Release.{is_usable}
use innovati_os.Pmm.Init.{in_bitmap, init_lem}

-- Sixteen pages: pages 0, 1 and 4 are in use.
abbrev sixteen : Pmm
sixteen = record {
  bitmap = λ i. if i == 0 then 0x13 else 0;
  total_pages = 16;
  free_pages = 13;
  scan_hint = 2;
}

sixteen-IsValid : IsValid sixteen
unfolding count_free bitmap_test test_bit
sixteen-IsValid = record {
  bytes = λ i. ground arith;
  counted = refl;
  below_hint = low;
  hint_in = omega arith;
  small = omega arith;
}
  where
    low : (i : ℕ) → i < 2 → bitmap_test sixteen.bitmap i ≡ 1
    low zero h = refl
    low (suc zero) h = refl
    low (suc (suc i)) h = absurd (omega arith)

alloc_runs : (alloc_page sixteen).1 ≡ 2 * page_size
unfolding alloc_page scan take_page bitmap_test test_bit
alloc_runs = refl

-- Pages 2 and 3 are too few; the first run of three begins at page 5.
alloc_run_runs : Option.map (λ (r : Pmm × ℕ). r.1) (alloc_pages sixteen 3) ≡ some (5 * page_size)
unfolding alloc_pages find_run free_run take_run bitmap_test test_bit
alloc_run_runs = refl

alloc_page_lem_example :
    (IsFull sixteen × (alloc_page sixteen ≡ (sixteen, 0)))
    ⊎ ((i : ℕ) × IsLowestFree sixteen i
        × ((alloc_page sixteen).1 ≡ i * page_size)
        × Takes sixteen i (alloc_page sixteen).0)
alloc_page_lem_example = alloc_page_lem sixteen sixteen-IsValid

free_page_lem_example :
    ((page_size / page_size < sixteen.total_pages)
      × (bitmap_test sixteen.bitmap (page_size / page_size) ≡ 1)
      × Frees sixteen (page_size / page_size) (free_page sixteen page_size))
    ⊎ (((sixteen.total_pages ≤ page_size / page_size) ⊎ IsFree sixteen (page_size / page_size))
        × (free_page sixteen page_size ≡ sixteen))
free_page_lem_example = free_page_lem sixteen page_size sixteen-IsValid

alloc_pages_lem_example :
    ((alloc_pages sixteen 3 ≡ some (sixteen, 0)) × ((◌≡◌ {A = ℕ} 3 0) ⊎ NoRun sixteen 3))
    ⊎ ((start : ℕ) × (q : Pmm) × (alloc_pages sixteen 3 ≡ some (q, start * page_size))
        × IsFirstRun sixteen start 3
        × TakesRun sixteen start 3 q)
alloc_pages_lem_example = alloc_pages_lem sixteen 3 sixteen-IsValid

free_pages_lem_example : FreesRun sixteen 0 (0 + 5) (free_pages sixteen (0 * page_size) 5)
free_pages_lem_example = free_pages_lem sixteen 0 5 sixteen-IsValid (omega arith)

abbrev after_run : Pmm
after_run = (take_run sixteen 3 5).0

-- A machine with 16 usable pages, the first page being reserved.
abbrev small_map : List Entry
small_map =
    record { base = 0; len = 4096; kind = 1 } ∷ record { base = 4096; len = 61440; kind = 0 } ∷ []

init_runs :
    Option.map {B = ℕ × ℕ × ℕ × ℕ}
      (λ (p : Pmm). (p.total_pages, p.free_pages, p.bitmap 0, p.bitmap 1))
      (init (λ _. 0) small_map)
    ≡ some (16, 14, 3, 0)
unfolding init highest_addr bitmap_home fill_used release release_all reserve bitmap_set
    bitmap_clear bitmap_test set_bit clear_bit test_bit
init_runs = refl

init_lem_example :
    (p : Pmm) × (init (λ _. 0) small_map ≡ some p)
    × IsValid p
    × (p.total_pages ≡ highest_addr small_map 0 / page_size)
    × ((i : ℕ)
        → i < p.total_pages
        → bitmap_test p.bitmap i
          ≡ (if is_usable small_map i && not (in_bitmap small_map i) then 0 else 1))
unfolding highest_addr bitmap_home
init_lem_example =
    init_lem (λ _. 0) small_map (λ i. omega arith) (omega arith, (omega arith, tt))
      ((λ i h. ground arith), ((λ i h. refl), tt)) (omega arith)
