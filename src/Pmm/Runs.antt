-- ===== src/Pmm/Runs.antt =====
-- The loops of `pmm_alloc_pages`.
use innovati_os.Base.{
  ℕ, zero, suc, ◌+◌, ◌-◌, ◌^◌, ◌≤◌, ◌<◌, ◌≡◌, ◌≢◌, leb, ltb, if◌then◌else◌, ◌&&◌, Option, none,
  some, arith, add64, dec_lt, dec_le, ℕ_discrete,
}
use innovati_os.Pmm.{Bitmap, bitmap_set, bitmap_test, free_run, set_run, find_run}
use innovati_os.Pmm.Bitmap.{IsBytes, bitmap_test-bitmap_set, bitmap_set-IsBytes}
use innovati_os.Pmm.Count.{count_free, count_free-bitmap_set}

-- `count` free pages from `start` on.
abbrev pub IsRun : Bitmap → ℕ → ℕ → Type 0
IsRun m count start = (k : ℕ) → k < count → bitmap_test m (start + k) ≡ 0

-- Some page of the `count` pages from `start` on is in use.
pub record IsBlocked (m : Bitmap) (count : ℕ) (start : ℕ) : Type 0 where
  pub at : ℕ
  pub at_in : at < count
  pub used : bitmap_test m (start + at) ≢ 0

-- `free_run` counts the free pages up to the first one in use.
pub free_run_lem :
    (m : Bitmap) (start left j : ℕ)
    → start + (j + left) < 2 ^ 64
    → (j ≤ free_run m start left j)
      × (free_run m start left j ≤ j + left)
      × ((k : ℕ) → j ≤ k → k < free_run m start left j → bitmap_test m (start + k) ≡ 0)
      × (free_run m start left j < j + left → bitmap_test m (start + free_run m start left j) ≢ 0)
unfolding free_run
free_run_lem m start zero j small =
    (omega arith, omega arith, λ k a b. absurd (omega arith), λ h. absurd (omega arith))
free_run_lem m start (suc left) j small =
    let exact : add64 start j ≡ start + j = omega arith in
    elim (ℕ_discrete (bitmap_test m (start + j)) 0) [
      | yes p ↦
          (let ih = free_run_lem m start left (j + 1) (omega arith) in
            let step : free_run m start (suc left) j ≡ free_run m start left (j + 1) =
              ground arith in
            rw step
              (omega arith, omega arith, λ k a b. ground (arith, ih.2 k), λ h. ih.3 (omega arith)))
      | no p ↦
          (let step : free_run m start (suc left) j ≡ j = ground arith in
            rw step (omega arith, omega arith, λ k a b. absurd (omega arith), λ h. p))
    ]

abbrev pub FoundRun : Bitmap → ℕ → ℕ → ℕ → Option ℕ → Type 0
FoundRun m total count from none = (s : ℕ) → from ≤ s → s + count ≤ total → IsBlocked m count s
FoundRun m total count from (some start) =
    (from ≤ start)
    × (start + count ≤ total)
    × IsRun m count start
    × ((s : ℕ) → from ≤ s → s < start → IsBlocked m count s)

-- The page at `from + j` is in use, so no run begins between `from` and it.
skip :
    (m : Bitmap) (total count from j : ℕ) (r : Option ℕ)
    → j < count
    → bitmap_test m (from + j) ≢ 0
    → FoundRun m total count (from + j + 1) r
    → FoundRun m total count from r
skip m total count from j r within used found = split r found
  where
    blocked : (s : ℕ) → from ≤ s → s < from + j + 1 → IsBlocked m count s
    blocked s a b = record {
      at = from + j - s;
      at_in = omega arith;
      used = let e : s + (from + j - s) ≡ from + j = omega arith in rw e used;
    }

    split : (r : Option ℕ) → FoundRun m total count (from + j + 1) r → FoundRun m total count from r
    split none f = λ s a fits. elim (dec_lt s (from + j + 1)) [
      | yes b ↦ blocked s a b
      | no b ↦ f s (omega arith) fits
    ]
    split (some start) f = (
      omega arith,
      f.1,
      f.2,
      λ s a b. elim (dec_lt s (from + j + 1)) [
        | yes c ↦ blocked s a c
        | no c ↦ f.3 s (omega arith) b
      ],
    )

-- With fuel above the pages left the search ends. What it finds is the first run, and where it
-- finds none, there is none.
pub find_run_lem :
    (fuel : ℕ) (m : Bitmap) (total count start : ℕ)
    → total ≤ 2 ^ 52
    → count ≤ total
    → start ≤ total
    → total < start + fuel
    → (r : Option ℕ) × (find_run fuel m total count start ≡ some r) × FoundRun m total count start r
unfolding find_run
find_run_lem zero m total count start small fits le enough = absurd (omega arith)
find_run_lem (suc fuel) m total count start small fits le enough =
    let j : ℕ = free_run m start count 0 in
    let run = free_run_lem m start count 0 (omega arith) in
    elim (dec_le (start + count) total) [
      | no past ↦ (none, ground arith, λ s a b. absurd (omega arith))
      | yes room ↦ elim (ℕ_discrete j count) [
        | yes whole ↦ (
          some start,
          ground arith,
          (
            omega arith,
            room,
            λ k h. run.2 k (omega arith) (omega arith),
            λ s a b. absurd (omega arith),
          ),
        )
        | no short ↦
            (let next : add64 (add64 start j) 1 ≡ start + j + 1 = omega arith in
              let ih =
                find_run_lem fuel m total count (start + j + 1) small fits (omega arith)
                  (omega arith) in
              (
                ih.0,
                ground (arith, ih.1),
                skip m total count start j ih.0 (omega arith) (run.3 (omega arith)) ih.2,
              ))
      ]
    ]

-- Setting a run of free pages: those pages and no others change, and the count falls by as many.
pub record SetsRun (m : Bitmap) (lo hi n : ℕ) (w : Bitmap) : Type 0 where
  pub bytes : IsBytes w
  pub pages : (j : ℕ) → bitmap_test w j ≡ (if leb lo j && ltb j hi then 1 else bitmap_test m j)
  pub count : count_free m n ≡ count_free w n + (hi - lo)

pub set_run_lem :
    (m : Bitmap) (start left k hi n : ℕ)
    → IsBytes m
    → hi ≡ start + (k + left)
    → hi ≤ n
    → n ≤ 2 ^ 52
    → ((i : ℕ) → k ≤ i → i < k + left → bitmap_test m (start + i) ≡ 0)
    → SetsRun m (start + k) hi n (set_run m start left k)
unfolding set_run
set_run_lem m start zero k hi n bytes e within small free = record {
  bytes = bytes;
  pages = λ j. ground arith;
  count = omega arith;
}
set_run_lem m start (suc left) k hi n bytes e within small free =
    let exact : add64 start k ≡ start + k = omega arith in
    let set_one = bitmap_test-bitmap_set bytes (start + k) in
    let here : bitmap_test m (start + k) ≡ 0 = free k (omega arith) (omega arith) in
    let ih =
      set_run_lem (bitmap_set m (start + k)) start left (k + 1) hi n
        (bitmap_set-IsBytes bytes (start + k)) (omega arith) within small
        (λ i a b. ground (arith, set_one (start + i), free i)) in
    rw exact (record {
      bytes = ih.bytes;
      pages = λ j. ground (arith, ih.pages j, set_one j);
      count = omega (arith, ih.count, count_free-bitmap_set bytes (start + k) n (omega arith) here);
    })
