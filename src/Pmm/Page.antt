-- ===== src/Pmm/Page.antt =====
-- `pmm_alloc_page` and `pmm_free_page`.
use innovati_os.Base.{
  ℕ, zero, suc, ◌+◌, ◌-◌, ◌*◌, ◌/◌, ◌≤◌, ◌<◌, min, ◌≡◌, refl, ◌⊎◌, inl, inr, ◌==◌, if◌then◌else◌,
  none, some, Option-cases, arith, dec_lt, ℕ_discrete,
}
use innovati_os.Pmm.{
  Pmm, Bitmap, page_size, bitmap_set, bitmap_clear, bitmap_test, scan, take_page, alloc_below_hint,
  alloc_page, give_back, free_page,
}
use innovati_os.Pmm.Bitmap.{
  IsBytes, bitmap_test-bitmap_set, bitmap_test-bitmap_clear, bitmap_set-IsBytes,
  bitmap_clear-IsBytes, bitmap_test-lt,
}
use innovati_os.Pmm.Count.{
  count_free, count_free-le, count_free_full, count_free-bitmap_set, count_free-bitmap_clear,
}
use innovati_os.Pmm.Invariant.{IsValid, IsFree, IsFull, IsLowestFree}

-- What `scan` finds is the first free page of its range.
scan-some :
    (m : Bitmap) (bytes : IsBytes m) (n i : ℕ) {r : ℕ}
    → scan m n i ≡ some r
    → (i ≤ r)
      × (r < i + n)
      × (bitmap_test m r ≡ 0)
      × ((j : ℕ) → i ≤ j → j < r → bitmap_test m j ≡ 1)
unfolding scan
scan-some m bytes zero i e = absurd (ground arith)
scan-some m bytes (suc n) i {r} e = elim (dec_lt 0 (bitmap_test m i)) [
  | yes p ↦
      (let e' : scan m n (i + 1) ≡ some r = ground arith in
        let ih = scan-some m bytes n (i + 1) e' in
        (omega arith, omega arith, ih.2, λ j a b. grind (arith, ih.3, bitmap_test-lt bytes)))
  | no p ↦ (ground arith, ground arith, ground arith, λ j a b. ground arith)
]

scan-none :
    (m : Bitmap) (bytes : IsBytes m) (n i : ℕ)
    → scan m n i ≡ none
    → (j : ℕ) → i ≤ j
    → j < i + n
    → bitmap_test m j ≡ 1
unfolding scan
scan-none m bytes zero i e j a b = absurd (omega arith)
scan-none m bytes (suc n) i e j a b = elim (dec_lt i j) [
  | yes p ↦ ground (arith, scan-none m bytes n (i + 1) (ground arith) j)
  | no p ↦ ground (arith, bitmap_test-lt bytes j)
]

-- Above a valid hint the first loop finds the lowest free page, if there is one, and the second
-- loop finds none.
alloc_page-cases :
    (p : Pmm)
    → IsValid p
    → (IsFull p × (alloc_page p ≡ (p, 0)))
      ⊎ ((i : ℕ) × IsLowestFree p i × (alloc_page p ≡ take_page p i))
unfolding alloc_page alloc_below_hint
alloc_page-cases p v =
    elim (Option-cases (scan p.bitmap (p.total_pages - p.scan_hint) p.scan_hint)) [
      | inl e ↦ inl (
        λ i h. elim (dec_lt i p.scan_hint) [
          | yes b ↦ v.below_hint i b
          | no b ↦ scan-none p.bitmap v.bytes _ _ e i (omega arith) (omega arith)
        ],
        rw (e, alloc_page) (rw (nothing_below, alloc_below_hint) refl),
      )
      | inr (i, e) ↦
          (let found = scan-some p.bitmap v.bytes _ _ e in
            inr (
              i,
              record {
                within = omega arith;
                free = found.2;
                lowest = λ j h. elim (dec_lt j p.scan_hint) [
                  | yes b ↦ v.below_hint j b
                  | no b ↦ found.3 j (omega arith) h
                ];
              },
              rw (e, alloc_page) refl,
            ))
    ]
  where
    no_hit : (r : ℕ) → scan p.bitmap (min p.scan_hint p.total_pages) 0 ≡ some r → ⊥
    no_hit r e =
        let found = scan-some p.bitmap v.bytes _ _ e in ground (arith, v.below_hint r, found)

    nothing_below : scan p.bitmap (min p.scan_hint p.total_pages) 0 ≡ none
    nothing_below = elim (Option-cases (scan p.bitmap (min p.scan_hint p.total_pages) 0)) [
      | inl e ↦ e
      | inr (r, e) ↦ absurd (no_hit r e)
    ]

-- `q` is `p` after page `i` has been taken: that page alone has changed, and the count is one less.
pub record Takes (p : Pmm) (i : ℕ) (q : Pmm) : Type 0 where
  pub valid : IsValid q
  pub same_total : q.total_pages ≡ p.total_pages
  pub pages : (j : ℕ) → bitmap_test q.bitmap j ≡ (if j == i then 1 else bitmap_test p.bitmap j)
  pub count : p.free_pages ≡ q.free_pages + 1

take_page-Takes : (p : Pmm) (i : ℕ) → IsValid p → IsLowestFree p i → Takes p i (take_page p i).0
unfolding take_page
take_page-Takes p i v l = record {
  valid = record {
    bytes = bitmap_set-IsBytes v.bytes i;
    counted = omega (arith, counts, count_free-le p.bitmap p.total_pages);
    below_hint = λ j h. ground (arith, changed j, l.lowest j);
    hint_in = omega arith;
    small = v.small;
  };
  same_total = refl;
  pages = changed;
  count = omega (arith, counts, count_free-le p.bitmap p.total_pages);
}
  where
    changed :
        (j : ℕ)
        → bitmap_test (bitmap_set p.bitmap i) j ≡ (if j == i then 1 else bitmap_test p.bitmap j)
    changed = bitmap_test-bitmap_set v.bytes i

    counts :
        count_free p.bitmap p.total_pages ≡ count_free (bitmap_set p.bitmap i) p.total_pages + 1
    counts = count_free-bitmap_set v.bytes i p.total_pages l.within l.free

-- From a valid state, pmm_alloc_page either finds every page in use, returns 0 and changes
-- nothing, or takes the lowest free page, returns its address and changes the state to a valid
-- one in which that page alone became used and one page less is free.
pub alloc_page_lem :
    (p : Pmm)
    → IsValid p
    → (IsFull p × (alloc_page p ≡ (p, 0)))
      ⊎ ((i : ℕ) × IsLowestFree p i
          × ((alloc_page p).1 ≡ i * page_size)
          × Takes p i (alloc_page p).0)
alloc_page_lem p v = elim (alloc_page-cases p v) [
  | inl h ↦ inl h
  | inr (i, l, e) ↦ inr (i, l, rw e (address i l), rw e (take_page-Takes p i v l))
]
  where
    address : (i : ℕ) → IsLowestFree p i → (take_page p i).1 ≡ i * page_size
    address i l = unfold take_page in omega (arith, v.small, l.within)

-- `q` is `p` after page `i` has been given back.
pub record Frees (p : Pmm) (i : ℕ) (q : Pmm) : Type 0 where
  pub valid : IsValid q
  pub same_total : q.total_pages ≡ p.total_pages
  pub pages : (j : ℕ) → bitmap_test q.bitmap j ≡ (if j == i then 0 else bitmap_test p.bitmap j)
  pub count : q.free_pages ≡ p.free_pages + 1

give_back-Frees :
    (p : Pmm) (i : ℕ)
    → IsValid p
    → i < p.total_pages
    → bitmap_test p.bitmap i ≡ 1
    → Frees p i (give_back p i)
unfolding give_back
give_back-Frees p i v within used = record {
  valid = record {
    bytes = bitmap_clear-IsBytes v.bytes i;
    counted = omega (arith, counts, count_free-le p.bitmap p.total_pages, v.small);
    below_hint = λ j h. ground (arith, changed j, v.below_hint j);
    hint_in = ground arith;
    small = v.small;
  };
  same_total = refl;
  pages = changed;
  count = omega (arith, counts, count_free-le p.bitmap p.total_pages, v.small);
}
  where
    changed :
        (j : ℕ)
        → bitmap_test (bitmap_clear p.bitmap i) j ≡ (if j == i then 0 else bitmap_test p.bitmap j)
    changed = bitmap_test-bitmap_clear v.bytes i

    counts :
        count_free (bitmap_clear p.bitmap i) p.total_pages ≡ count_free p.bitmap p.total_pages + 1
    counts = count_free-bitmap_clear v.bytes i p.total_pages within used

-- From a valid state, pmm_free_page either frees the page of the address, which is in range and
-- in use, so that the state stays valid and no other page changes, or the page is out of range or
-- free already and nothing changes.
pub free_page_lem :
    (p : Pmm) (phys_addr : ℕ)
    → IsValid p
    → ((phys_addr / page_size < p.total_pages)
        × (bitmap_test p.bitmap (phys_addr / page_size) ≡ 1)
        × Frees p (phys_addr / page_size) (free_page p phys_addr))
      ⊎ (((p.total_pages ≤ phys_addr / page_size) ⊎ IsFree p (phys_addr / page_size))
          × (free_page p phys_addr ≡ p))
unfolding free_page
free_page_lem p a v = elim (dec_lt (a / page_size) p.total_pages) [
  | no out ↦ inr (inl (omega arith), ground arith)
  | yes within ↦ elim (ℕ_discrete (bitmap_test p.bitmap (a / page_size)) 0) [
    | yes free ↦ inr (inr (within, free), ground arith)
    | no used ↦
        (let one : bitmap_test p.bitmap (a / page_size) ≡ 1 =
            omega (arith, bitmap_test-lt v.bytes (a / page_size)) in
          let done : free_page p a ≡ give_back p (a / page_size) = ground arith in
          inl (within, one, rw done (give_back-Frees p (a / page_size) v within one)))
  ]
]

pub free_page-IsValid : (p : Pmm) (phys_addr : ℕ) → IsValid p → IsValid (free_page p phys_addr)
free_page-IsValid p a v = elim (free_page_lem p a v) [ inl h ↦ h.2.valid | inr h ↦ rw h.1 v ]

pub alloc_page-IsValid : (p : Pmm) → IsValid p → IsValid (alloc_page p).0
alloc_page-IsValid p v = elim (alloc_page_lem p v) [ inl h ↦ rw h.1 v | inr h ↦ h.3.valid ]

-- From a valid state with a free page, freeing the page that pmm_alloc_page has returned restores
-- every page's bit and the count of free pages.
pub free_page-alloc_page :
    (p : Pmm)
    → IsValid p
    → 0 < p.free_pages
    → let (q, addr) = alloc_page p in
      ((j : ℕ) → bitmap_test (free_page q addr).bitmap j ≡ bitmap_test p.bitmap j)
      × ((free_page q addr).free_pages ≡ p.free_pages)
free_page-alloc_page p v some_free = elim (alloc_page_lem p v) [
  | inl h ↦ absurd (omega (arith, count_free_full p.bitmap p.total_pages h.0, v.counted))
  | inr (i, l, e, t) ↦
      (let back : (alloc_page p).1 / page_size ≡ i = omega arith in
        elim (free_page_lem (alloc_page p).0 (alloc_page p).1 t.valid) [
          | inl f ↦ (
            λ j. ground (arith, f.2.pages j, t.pages j, l.free),
            omega (arith, f.2.count, t.count),
          )
          | inr f ↦ absurd (ground (arith, t.pages i, t.same_total, l.within))
        ])
]
