-- ===== src/Pmm.antt =====
-- The physical page allocator, kernel/src/mm/pmm.c: a bitmap with one bit for each page of 4096
-- bytes (1: in use), a count of the free pages and the index where the next search begins.
--
-- `bitmap` is the memory behind the C pointer, a function from the byte's index. The words are
-- `u64`, so their arithmetic is that of `add64`, `sub64` and `mul64`. The higher-half offset only
-- turns an address into a pointer and does not occur.
pub mod Bitmap
pub mod Count
pub mod Invariant
pub mod Page
pub mod Runs
pub mod Pages
pub mod Release
pub mod Init
mod Tests
use innovati_os.Base.{
  ℕ, zero, suc, ◌+◌, ◌-◌, ◌/◌, ◌%◌, min, Bool, true, false, ◌&&◌, ◌||◌, not, Option, none, some,
  List, [], ◌∷◌, ◌==◌, ltb, leb, if◌then◌else◌, update, u64, add64, sub64, mul64, set_bit,
  clear_bit, test_bit,
}

abbrev pub page_size : ℕ
page_size = 4096

abbrev pub Bitmap : Type 0
Bitmap = ℕ → ℕ

pub record Pmm : Type 0 where
  pub bitmap : Bitmap
  pub total_pages : ℕ
  pub free_pages : ℕ
  pub scan_hint : ℕ

unfoldable pub bitmap_set : Bitmap → ℕ → Bitmap
bitmap_set m idx = update m (idx / 8) (set_bit (m (idx / 8)) (idx % 8))

unfoldable pub bitmap_clear : Bitmap → ℕ → Bitmap
bitmap_clear m idx = update m (idx / 8) (clear_bit (m (idx / 8)) (idx % 8))

unfoldable pub bitmap_test : Bitmap → ℕ → ℕ
bitmap_test m idx = test_bit (m (idx / 8)) (idx % 8)

-- The first free page among the `rounds` pages from `i` on.
unfoldable pub scan : Bitmap → ℕ → ℕ → Option ℕ
scan m zero i = none
scan m (suc rounds) i = if bitmap_test m i == 0 then some i else scan m rounds (i + 1)

-- The body of both loops of `pmm_alloc_page`, once page `i` is found free.
unfoldable pub take_page : Pmm → ℕ → Pmm × ℕ
take_page p i = (
  record p {
    bitmap = bitmap_set p.bitmap i;
    free_pages = sub64 p.free_pages 1;
    scan_hint = add64 i 1;
  },
  mul64 i page_size,
)

-- The second loop of `pmm_alloc_page`, below the hint.
unfoldable pub alloc_below_hint : Pmm → Pmm × ℕ
alloc_below_hint p = elim (scan p.bitmap (min p.scan_hint p.total_pages) 0) [
  | some i ↦ take_page p i
  | none ↦ (p, 0)
]

unfoldable pub alloc_page : Pmm → Pmm × ℕ
alloc_page p = elim (scan p.bitmap (p.total_pages - p.scan_hint) p.scan_hint) [
  | some i ↦ take_page p i
  | none ↦ alloc_below_hint p
]

-- `while (j < count && !bitmap_test(start + j)) j++`, with `left` = `count - j`.
unfoldable pub free_run : Bitmap → ℕ → ℕ → ℕ → ℕ
free_run m start zero j = j
free_run m start (suc left) j =
    if bitmap_test m (add64 start j) == 0 then free_run m start left (j + 1) else j

-- `for (k = 0; k < count; k++) bitmap_set(start + k)`, with `left` = `count - k`.
unfoldable pub set_run : Bitmap → ℕ → ℕ → ℕ → Bitmap
set_run m start zero k = m
set_run m start (suc left) k = set_run (bitmap_set m (add64 start k)) start left (k + 1)

-- The outer loop of `pmm_alloc_pages`. The outer `none` is the end of the fuel; `some none` says
-- that no run is left, `some (some start)` where the first one begins.
unfoldable pub find_run : ℕ → Bitmap → ℕ → ℕ → ℕ → Option (Option ℕ)
find_run zero m total count start = none
find_run (suc fuel) m total count start =
    let j = free_run m start count 0 in
    let rest = find_run fuel m total count (add64 (add64 start j) 1) in
    if leb (add64 start count) total
    then (if j == count then some (some start) else rest)
    else some none

unfoldable pub take_run : Pmm → ℕ → ℕ → Pmm × ℕ
take_run p count start = (
  record p { bitmap = set_run p.bitmap start count 0; free_pages = sub64 p.free_pages count },
  mul64 start page_size,
)

-- `none`: the fuel did not suffice.
unfoldable pub alloc_pages : Pmm → ℕ → Option (Pmm × ℕ)
alloc_pages p count =
    if count == 0 || ltb p.total_pages count
    then some (p, 0)
    else elim (find_run (p.total_pages + 1) p.bitmap p.total_pages count 0) [
      | none ↦ none
      | some none ↦ some (p, 0)
      | some (some start) ↦ some (take_run p count start)
    ]

-- The part of `pmm_free_page` behind its tests.
unfoldable pub give_back : Pmm → ℕ → Pmm
give_back p idx = record p {
  bitmap = bitmap_clear p.bitmap idx;
  free_pages = add64 p.free_pages 1;
  scan_hint = if ltb idx p.scan_hint then idx else p.scan_hint;
}

unfoldable pub free_page : Pmm → ℕ → Pmm
free_page p phys_addr =
    let idx = phys_addr / page_size in
    if leb p.total_pages idx
    then p
    else (if bitmap_test p.bitmap idx == 0 then p else give_back p idx)

-- `for (i = 0; i < count; i++)`, with `left` = `count - i`.
unfoldable pub free_from : Pmm → ℕ → ℕ → ℕ → Pmm
free_from p start zero i = p
free_from p start (suc left) i =
    free_from (free_page p (mul64 (add64 start i) page_size)) start left (i + 1)

unfoldable pub free_pages : Pmm → ℕ → ℕ → Pmm
free_pages p phys_addr count = free_from p (phys_addr / page_size) count 0

-- An entry of the boot loader's memory map.
pub record Entry : Type 0 where
  pub base : ℕ
  pub len : ℕ
  pub kind : ℕ

-- `LIMINE_MEMMAP_USABLE`
abbrev pub usable : ℕ
usable = 0

-- The end of the highest entry.
unfoldable pub highest_addr : List Entry → ℕ → ℕ
highest_addr [] acc = acc
highest_addr (e ∷ es) acc =
    highest_addr es (if ltb acc (add64 e.base e.len) then add64 e.base e.len else acc)

-- The base of the first usable entry that holds the bitmap, or 0.
unfoldable pub bitmap_home : List Entry → ℕ → ℕ
bitmap_home [] bytes = 0
bitmap_home (e ∷ es) bytes =
    if (e.kind == usable) && leb bytes e.len then e.base else bitmap_home es bytes

-- `k_memset(bitmap, 0xFF, bytes)`
unfoldable pub fill_used : Bitmap → ℕ → Bitmap
fill_used m bytes i = if ltb i bytes then 255 else m i

-- The loop over the pages of one usable entry, with `left` pages to go.
unfoldable pub release : Bitmap × ℕ → ℕ → ℕ → ℕ → Bitmap × ℕ
release (m, n) start zero k = (m, n)
release (m, n) start (suc left) k =
    release (bitmap_clear m (add64 start k), add64 n 1) start left (k + 1)

unfoldable pub release_all : List Entry → Bitmap × ℕ → Bitmap × ℕ
release_all [] s = s
release_all (e ∷ es) s =
    release_all es
      (if e.kind == usable then release s (e.base / page_size) (e.len / page_size) 0 else s)

-- The last loop: the bitmap's own pages, `left` of them to go.
unfoldable pub reserve : Bitmap × ℕ → ℕ → ℕ → ℕ → Bitmap × ℕ
reserve (m, n) start zero k = (m, n)
reserve (m, n) start (suc left) k =
    reserve
      (if bitmap_test m (add64 start k) == 0
        then (bitmap_set m (add64 start k), sub64 n 1)
        else (m, n))
      start left (k + 1)

-- `none` is the halt after "FATAL - no usable region big enough for the bitmap". `mem` is what
-- the memory at the bitmap's place held before.
unfoldable pub init : Bitmap → List Entry → Option Pmm
init mem memmap =
    let total = highest_addr memmap 0 / page_size in
    let bytes = add64 total 7 / 8 in
    let home = bitmap_home memmap bytes in
    if home == 0
    then none
    else (let (m, n) =
          reserve (release_all memmap (fill_used mem bytes, 0)) (home / page_size)
            (add64 bytes (page_size - 1) / page_size) 0 in
        some (record { bitmap = m; total_pages = total; free_pages = n; scan_hint = 0 }))
