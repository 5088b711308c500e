-- ===== src/Pmm/Init.antt =====
-- `pmm_init`: from the boot loader's memory map to a valid allocator.
use innovati_os.Base.{
  ℕ, zero, suc, ◌+◌, ◌-◌, ◌/◌, ◌^◌, ◌≤◌, ◌<◌, ◌≡◌, ◌≢◌, refl, ◌==◌, leb, ltb, if◌then◌else◌, Bool,
  false, not, ◌&&◌, some, List, All, arith, add64, sub64, ℕ_discrete, ==_false, sym,
}
use innovati_os.Pmm.{
  Pmm, Bitmap, page_size, bitmap_set, bitmap_test, Entry, highest_addr, bitmap_home, fill_used,
  release_all, reserve, init,
}
use innovati_os.Pmm.Bitmap.{IsBytes, bitmap_test-bitmap_set, bitmap_set-IsBytes, bitmap_test-lt}
use innovati_os.Pmm.Count.{count_free-le, count_free_full, count_free-bitmap_set}
use innovati_os.Pmm.Invariant.{IsValid}
use innovati_os.Pmm.Release.{
  Counts, Marks, is_usable, IsEntry, IsSeparate, highest_addr_lem, highest_addr-lt, is_usable-lt,
  bitmap_home_lem, fill_used_lem, fill_used-IsBytes, release_all_lem,
}

reserve_lem :
    (m : Bitmap) (n start left k total hi : ℕ)
    → total < 2 ^ 52
    → Counts total (m, n)
    → hi ≡ start + (k + left)
    → hi ≤ total
    → Marks total 1 (λ j. leb (start + k) j && ltb j hi) (m, n) (reserve (m, n) start left k)
unfolding reserve
reserve_lem m n start zero k total hi small c e within = record {
  counts = c;
  pages = λ j. ground arith;
}
reserve_lem m n start (suc left) k total hi small c e within =
    let exact : add64 start k ≡ start + k = omega arith in
    elim (ℕ_discrete (bitmap_test m (start + k)) 0) [
      | yes free ↦
          (let taken = bitmap_test-bitmap_set c.bytes (start + k) in
            let counted = count_free-bitmap_set c.bytes (start + k) total (omega arith) free in
            let ih =
              reserve_lem (bitmap_set m (start + k)) (sub64 n 1) start left (k + 1) total hi small
                (record {
                  bytes = bitmap_set-IsBytes c.bytes (start + k);
                  count = omega (arith, counted, c.count, count_free-le m total);
                })
                (omega arith) within in
            rw (exact, free)
              (record { counts = ih.counts; pages = λ j. ground (arith, ih.pages j, taken j) }))
      | no used ↦
          (let kept : (bitmap_test m (start + k) == 0) ≡ false = ground arith in
            let ih = reserve_lem m n start left (k + 1) total hi small c (omega arith) within in
            rw (exact, kept)
              (record {
                counts = ih.counts;
                pages = λ j. ground (arith, ih.pages j, bitmap_test-lt c.bytes (start + k));
              }))
    ]

-- The pages that the bitmap occupies.
abbrev pub bytes_for : List Entry → ℕ
bytes_for es = add64 (highest_addr es 0 / page_size) 7 / 8

abbrev pub in_bitmap : List Entry → ℕ → Bool
in_bitmap es i =
    leb (bitmap_home es (bytes_for es) / page_size) i
    && ltb i
        (bitmap_home es (bytes_for es) / page_size + (bytes_for es + (page_size - 1)) / page_size)

-- Let the memory map's entries be such as the boot loader promises (IsEntry of each, none
-- overlapping another), and let an entry other than one at address 0 be found for the bitmap.
-- Then pmm_init returns a valid allocator over the pages below the highest address, in which
-- exactly the pages of usable entries outside the bitmap's own pages are free.
pub init_lem :
    (mem : Bitmap) (es : List Entry)
    → IsBytes mem
    → All IsEntry es
    → IsSeparate es
    → bitmap_home es (bytes_for es) ≢ 0
    → (p : Pmm) × (init mem es ≡ some p)
      × IsValid p
      × (p.total_pages ≡ highest_addr es 0 / page_size)
      × ((i : ℕ)
          → i < p.total_pages
          → bitmap_test p.bitmap i ≡ (if is_usable es i && not (in_bitmap es i) then 0 else 1))
unfolding init
init_lem mem es bytes entries apart home = (
  record { bitmap = reserved.0; total_pages = total; free_pages = reserved.1; scan_hint = 0 },
  rw (==_false _ _ home) (rw ceiling refl),
  record {
    bytes = marks.counts.bytes;
    counted = marks.counts.count;
    below_hint = λ i h. absurd (omega arith);
    hint_in = omega arith;
    small = omega (arith, small);
  },
  refl,
  λ i h. ground (arith, small, marks.pages i, freed.pages i, fill_used_lem mem (bytes_for es) i),
)
  where
    total : ℕ
    total = highest_addr es 0 / page_size

    small : total < 2 ^ 52
    small = omega (arith, highest_addr-lt es 0 (omega arith))

    below : All (λ e. e.base + e.len ≤ highest_addr es 0) es
    below = (highest_addr_lem es 0 entries).1

    filled : Bitmap × ℕ
    filled = (fill_used mem (bytes_for es), 0)

    start : Counts total filled
    start = record {
      bytes = fill_used-IsBytes mem (bytes_for es) bytes;
      count = sym (
          count_free_full _ total
            (λ i h. fill_used_lem mem (bytes_for es) i (omega (arith, small))));
    }

    freed : Marks total 0 (is_usable es) filled (release_all es filled)
    freed = release_all_lem es filled total (highest_addr es 0) refl small below apart start (λ i u.
        fill_used_lem mem (bytes_for es) i
          (omega (arith, small, is_usable-lt es (highest_addr es 0) i below u)))

    place : ℕ
    place = bitmap_home es (bytes_for es) / page_size

    pages_held : ℕ
    pages_held = (bytes_for es + (page_size - 1)) / page_size

    ceiling : add64 (bytes_for es) (page_size - 1) ≡ bytes_for es + (page_size - 1)
    ceiling = omega (arith, small)

    reserved : Bitmap × ℕ
    reserved = reserve (release_all es filled) place pages_held 0

    fits : place + pages_held ≤ total
    fits = omega (arith, bitmap_home_lem es (bytes_for es) (highest_addr es 0) entries below home)

    marks :
        Marks total 1
          (λ j. leb (place + 0) j && ltb j (place + pages_held))
          (release_all es filled)
          reserved
    marks =
        reserve_lem (release_all es filled).0 (release_all es filled).1 place pages_held 0 total
          (place + pages_held) small freed.counts (omega arith) fits
