-- ===== src/Pmm/Pages.antt =====
-- `pmm_alloc_pages` and `pmm_free_pages`.
use innovati_os.Base.{
  ℕ, zero, suc, ◌+◌, ◌-◌, ◌*◌, ◌/◌, ◌≤◌, ◌<◌, ◌≡◌, ◌≢◌, refl, sym, ap, ◌∙◌, ◌⊎◌, inl, inr, leb, ltb,
  if◌then◌else◌, ◌&&◌, Option, none, some, arith, add64, mul64, dec_lt, ℕ_discrete,
}
use innovati_os.Pmm.{
  Pmm, page_size, bitmap_test, find_run, set_run, take_run, alloc_pages, free_page, free_from,
  free_pages,
}
use innovati_os.Pmm.Count.{count_free, count_free-le, count_free_ext}
use innovati_os.Pmm.Invariant.{IsValid}
use innovati_os.Pmm.Page.{free_page_lem}
use innovati_os.Pmm.Runs.{IsRun, IsBlocked, FoundRun, find_run_lem, SetsRun, set_run_lem}

-- `q` is `p` after the `count` pages from `start` on have been taken, and no other.
pub record TakesRun (p : Pmm) (start count : ℕ) (q : Pmm) : Type 0 where
  pub valid : IsValid q
  pub same_total : q.total_pages ≡ p.total_pages
  pub pages :
      (j : ℕ)
      → bitmap_test q.bitmap j
        ≡ (if leb start j && ltb j (start + count) then 1 else bitmap_test p.bitmap j)
  pub count_falls : p.free_pages ≡ q.free_pages + count

-- The run at `start` is free, and the lowest one of that length.
pub record IsFirstRun (p : Pmm) (start count : ℕ) : Type 0 where
  pub within : start + count ≤ p.total_pages
  pub run : IsRun p.bitmap count start
  pub first : (s : ℕ) → s < start → IsBlocked p.bitmap count s

-- No run of `count` free pages is left.
abbrev pub NoRun : Pmm → ℕ → Type 0
NoRun p count = (s : ℕ) → s + count ≤ p.total_pages → IsBlocked p.bitmap count s

take_run-TakesRun :
    (p : Pmm) (start count : ℕ)
    → IsValid p
    → IsFirstRun p start count
    → TakesRun p start count (take_run p count start).0
unfolding take_run
take_run-TakesRun p start count v f = record {
  valid = record {
    bytes = done.bytes;
    counted = omega (arith, done.count, count_free-le p.bitmap p.total_pages, v.counted, v.small);
    below_hint = λ i h. ground (arith, done.pages i, v.below_hint i);
    hint_in = v.hint_in;
    small = v.small;
  };
  same_total = refl;
  pages = λ j. ground (arith, done.pages j);
  count_falls =
      omega (arith, done.count, count_free-le p.bitmap p.total_pages, v.counted, v.small, f.within);
}
  where
    done :
        SetsRun p.bitmap (start + 0) (start + count) p.total_pages (set_run p.bitmap start count 0)
    done =
        set_run_lem p.bitmap start count 0 (start + count) p.total_pages v.bytes (omega arith)
          f.within v.small (λ i a b. f.run i (omega arith))

-- From a valid state the search of pmm_alloc_pages ends. It returns 0 without a change if the
-- count is 0 or no run of that many free pages exists; otherwise it takes the first such run, and
-- the new state is valid.
pub alloc_pages_lem :
    (p : Pmm) (count : ℕ)
    → IsValid p
    → ((alloc_pages p count ≡ some (p, 0)) × ((count ≡ 0) ⊎ NoRun p count))
      ⊎ ((start : ℕ) × (q : Pmm) × (alloc_pages p count ≡ some (q, start * page_size))
          × IsFirstRun p start count
          × TakesRun p start count q)
unfolding alloc_pages
alloc_pages_lem p count v = elim (ℕ_discrete count 0) [
  | yes z ↦ inl (ground arith, inl z)
  | no nz ↦ elim (dec_lt p.total_pages count) [
    | yes over ↦ inl (ground arith, inr (λ s h. absurd (omega arith)))
    | no fits ↦
        (let found =
            find_run_lem (p.total_pages + 1) p.bitmap p.total_pages count 0 v.small (omega arith)
              (omega arith) (omega arith) in
          split nz (omega arith) found.0 found.1 found.2)
  ]
]
  where
    Goal : Type 0
    Goal =
        ((alloc_pages p count ≡ some (p, 0)) × ((count ≡ 0) ⊎ NoRun p count))
        ⊎ ((start : ℕ) × (q : Pmm) × (alloc_pages p count ≡ some (q, start * page_size))
            × IsFirstRun p start count
            × TakesRun p start count q)

    split :
        count ≢ 0
        → count ≤ p.total_pages
        → (r : Option ℕ) → find_run (p.total_pages + 1) p.bitmap p.total_pages count 0 ≡ some r
        → FoundRun p.bitmap p.total_pages count 0 r
        → Goal
    split nz fits none e f = inl (ground arith, inr (λ s h. f s (omega arith) h))
    split nz fits (some start) e f =
        let first : IsFirstRun p start count = record {
          within = f.1;
          run = f.2;
          first = λ s h. f.3 s (omega arith) h;
        } in
        let addr : (take_run p count start).1 ≡ start * page_size =
          unfold take_run in omega (arith, v.small) in
        inr (
          start,
          (take_run p count start).0,
          ground (arith, addr),
          first,
          take_run-TakesRun p start count v first,
        )

-- `q` is `p` with the pages from `lo` below `hi` free.
pub record FreesRun (p : Pmm) (lo hi : ℕ) (q : Pmm) : Type 0 where
  pub valid : IsValid q
  pub same_total : q.total_pages ≡ p.total_pages
  pub pages :
      (j : ℕ)
      → bitmap_test q.bitmap j ≡ (if leb lo j && ltb j hi then 0 else bitmap_test p.bitmap j)

-- One page within the bitmap.
free_page-FreesRun :
    (p : Pmm) (i : ℕ)
    → IsValid p
    → i < p.total_pages
    → FreesRun p i (i + 1) (free_page p (i * page_size))
free_page-FreesRun p i v within =
    let back : i * page_size / page_size ≡ i = omega arith in
    elim (free_page_lem p (i * page_size) v) [
      | inl f ↦ record {
        valid = f.2.valid;
        same_total = f.2.same_total;
        pages = λ j. ground (arith, f.2.pages j);
      }
      | inr (inl out, e) ↦ absurd (omega arith)
      | inr (inr f, e) ↦
          rw e (record { valid = v; same_total = refl; pages = λ j. ground (arith, f.1) })
    ]

free_from-FreesRun :
    (p : Pmm) (start left k hi : ℕ)
    → IsValid p
    → hi ≡ start + (k + left)
    → hi ≤ p.total_pages
    → FreesRun p (start + k) hi (free_from p start left k)
unfolding free_from
free_from-FreesRun p start zero k hi v e within = record {
  valid = v;
  same_total = refl;
  pages = λ j. ground arith;
}
free_from-FreesRun p start (suc left) k hi v e within =
    let addr : mul64 (add64 start k) page_size ≡ (start + k) * page_size = omega (arith, v.small) in
    let one = free_page-FreesRun p (start + k) v (omega arith) in
    let ih =
      free_from-FreesRun (free_page p ((start + k) * page_size)) start left (k + 1) hi one.valid
        (omega arith) (omega (arith, one.same_total)) in
    rw addr (record {
      valid = ih.valid;
      same_total = omega (arith, ih.same_total, one.same_total);
      pages = λ j. ground (arith, ih.pages j, one.pages j);
    })

-- From a valid state, pmm_free_pages over a range of pages that all exist gives a valid state in
-- which the pages of the range are free and the others are as before.
pub free_pages_lem :
    (p : Pmm) (start count : ℕ)
    → IsValid p
    → start + count ≤ p.total_pages
    → FreesRun p start (start + count) (free_pages p (start * page_size) count)
unfolding free_pages
free_pages_lem p start count v within =
    let back : start * page_size / page_size ≡ start = omega arith in
    let none_done : start + 0 ≡ start = omega arith in
    rw back
      (rw none_done at (free_from-FreesRun p start count 0 (start + count) v (omega arith) within))

-- From a valid state, freeing the run that pmm_alloc_pages has returned restores every page's bit
-- and the count of free pages.
pub free_pages-alloc_pages :
    (p q : Pmm) (count addr : ℕ)
    → IsValid p
    → addr ≢ 0
    → alloc_pages p count ≡ some (q, addr)
    → ((j : ℕ) → bitmap_test (free_pages q addr count).bitmap j ≡ bitmap_test p.bitmap j)
      × ((free_pages q addr count).free_pages ≡ p.free_pages)
free_pages-alloc_pages p q count addr v some_addr e = elim (alloc_pages_lem p count v) [
  | inl h ↦ absurd (ground (arith, h.0))
  | inr (start, w, e', first, t) ↦
      (let same : (w ≡ q) × (start * page_size ≡ addr) = ground (arith, e') in
        let tq : TakesRun p start count q = rw same.0 at t in
        let f : FreesRun q start (start + count) (free_pages q addr count) =
          rw same.1 at
            (free_pages_lem q start count tq.valid (omega (arith, first.within, tq.same_total))) in
        let pages : (j : ℕ)
            → bitmap_test (free_pages q addr count).bitmap j ≡ bitmap_test p.bitmap j =
          λ j. elim (dec_lt j start) [
            | yes a ↦ ground (arith, f.pages j, tq.pages j)
            | no a ↦ ground (arith, f.pages j, tq.pages j, first.run (j - start))
          ] in
        let total : (free_pages q addr count).total_pages ≡ p.total_pages =
          omega (arith, f.same_total, tq.same_total) in
        (
          pages,
          f.valid.counted
              ∙ ap (count_free (free_pages q addr count).bitmap) total
              ∙ count_free_ext _ p.bitmap p.total_pages (λ i _. pages i)
              ∙ sym v.counted,
        ))
]
