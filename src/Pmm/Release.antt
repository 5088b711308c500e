-- ===== src/Pmm/Release.antt =====
-- What the memory map says of a page, and the loops of `pmm_init` that fill the bitmap and
-- release the usable pages.
use innovati_os.Base.{
  ℕ, zero, suc, ◌+◌, ◌-◌, ◌*◌, ◌/◌, ◌%◌, ◌^◌, ◌≤◌, ◌<◌, ◌≡◌, ◌≢◌, refl, inl, inr, ◌==◌, leb, ltb,
  if◌then◌else◌, Bool, true, false, ◌&&◌, ◌||◌, List, [], ◌∷◌, All, arith, add64, test_bit,
  Bool-cases, holds_below, holds_below_sound, ==_iff,
}
use innovati_os.Pmm.{
  Bitmap, page_size, bitmap_clear, bitmap_test, Entry, usable, highest_addr, bitmap_home, fill_used,
  release, release_all,
}
use innovati_os.Pmm.Bitmap.{IsBytes, bitmap_test-bitmap_clear, bitmap_clear-IsBytes}
use innovati_os.Pmm.Count.{count_free, count_free-le, count_free-bitmap_clear}

-- Page `i` lies in a usable entry.
abbrev pub in_entry : Entry → ℕ → Bool
in_entry e i =
    (e.kind == usable)
    && (leb (e.base / page_size) i && ltb i (e.base / page_size + e.len / page_size))

abbrev pub is_usable : List Entry → ℕ → Bool
is_usable [] i = false
is_usable (e ∷ es) i = in_entry e i || is_usable es i

-- What the Limine protocol promises of an entry: it ends within the address space, and a usable
-- one is aligned to pages.
pub record IsEntry (e : Entry) : Type 0 where
  pub ends : e.base + e.len < 2 ^ 64
  pub base_aligned : e.kind ≡ usable → e.base % page_size ≡ 0
  pub len_aligned : e.kind ≡ usable → e.len % page_size ≡ 0

-- Usable entries do not overlap.
abbrev pub IsSeparate : List Entry → Type 0
IsSeparate [] = Unit
IsSeparate (e ∷ es) = ((i : ℕ) → in_entry e i ≡ true → is_usable es i ≡ false) × IsSeparate es

-- Every entry ends at or below `highest_addr`.
pub highest_addr_lem :
    (es : List Entry) (acc : ℕ)
    → All IsEntry es
    → (acc ≤ highest_addr es acc) × All (λ e. e.base + e.len ≤ highest_addr es acc) es
unfolding highest_addr
highest_addr_lem [] acc h = (omega arith, tt)
highest_addr_lem (e ∷ es) acc h =
    let ends = h.0.ends in
    let ih =
      highest_addr_lem es (if ltb acc (add64 e.base e.len) then add64 e.base e.len else acc) h.1 in
    (ground (arith, ih.0), (ground (arith, ih.0), ih.1))

pub highest_addr-lt : (es : List Entry) (acc : ℕ) → acc < 2 ^ 64 → highest_addr es acc < 2 ^ 64
unfolding highest_addr
highest_addr-lt [] acc h = h
highest_addr-lt (e ∷ es) acc h =
    highest_addr-lt es (if ltb acc (add64 e.base e.len) then add64 e.base e.len else acc)
      (ground arith)

-- The pages of usable entries are pages of the bitmap.
pub is_usable-lt :
    (es : List Entry) (top i : ℕ)
    → All (λ e. e.base + e.len ≤ top) es
    → is_usable es i ≡ true
    → i < top / page_size
is_usable-lt [] top i h u = absurd (ground arith)
is_usable-lt (e ∷ es) top i h u = elim (Bool-cases (in_entry e i)) [
  | inl here ↦ ground (arith, h.0)
  | inr later ↦ is_usable-lt es top i h.1 (ground arith)
]

-- The bitmap is put at the start of a usable entry that holds it.
pub bitmap_home_lem :
    (es : List Entry) (bytes top : ℕ)
    → All IsEntry es
    → All (λ e. e.base + e.len ≤ top) es
    → bitmap_home es bytes ≢ 0
    → (bitmap_home es bytes % page_size ≡ 0)
      × (bitmap_home es bytes + (bytes + (page_size - 1)) / page_size * page_size ≤ top)
unfolding bitmap_home
bitmap_home_lem [] bytes top a b ne = absurd (ne refl)
bitmap_home_lem (e ∷ es) bytes top a b ne =
    elim (Bool-cases ((e.kind == usable) && leb bytes e.len)) [
      | inl here ↦
          (let k : e.kind ≡ usable = ground arith in
            let base = a.0.base_aligned k in
            let len = a.0.len_aligned k in
            let room : bytes ≤ e.len = ground arith in rw here (base, omega (arith, b.0)))
      | inr later ↦
          (let rest : bitmap_home (e ∷ es) bytes ≡ bitmap_home es bytes =
              rw (later, bitmap_home) refl in
            rw later (bitmap_home_lem es bytes top a.1 b.1 (rw rest at ne)))
    ]

all_ones : holds_below 8 (λ j. test_bit 255 j == 1) ≡ true
unfolding holds_below test_bit
all_ones = refl

pub fill_used_lem :
    (mem : Bitmap) (bytes i : ℕ) → i < 8 * bytes → bitmap_test (fill_used mem bytes) i ≡ 1
unfolding bitmap_test fill_used
fill_used_lem mem bytes i h = ground (
  arith,
  (==_iff (test_bit 255 (i % 8)) 1).0
      (holds_below_sound 8 (λ j. test_bit 255 j == 1) (i % 8) all_ones (omega arith)),
)

pub fill_used-IsBytes : (mem : Bitmap) (bytes : ℕ) → IsBytes mem → IsBytes (fill_used mem bytes)
unfolding fill_used
fill_used-IsBytes mem bytes h i = ground (arith, h i)

-- The working state of `pmm_init`: the bitmap and the count of its free pages.
pub record Counts (total : ℕ) (s : Bitmap × ℕ) : Type 0 where
  pub bytes : IsBytes s.0
  pub count : s.1 ≡ count_free s.0 total

-- The bitmap after a loop has given the pages of `freed` the bit `b`.
pub record Marks (total b : ℕ) (marked : ℕ → Bool) (s t : Bitmap × ℕ) : Type 0 where
  pub counts : Counts total t
  pub pages : (j : ℕ) → bitmap_test t.0 j ≡ (if marked j then b else bitmap_test s.0 j)

release_lem :
    (m : Bitmap) (n start left k total hi : ℕ)
    → total < 2 ^ 52
    → Counts total (m, n)
    → hi ≡ start + (k + left)
    → hi ≤ total
    → ((i : ℕ) → start + k ≤ i → i < hi → bitmap_test m i ≡ 1)
    → Marks total 0 (λ j. leb (start + k) j && ltb j hi) (m, n) (release (m, n) start left k)
unfolding release
release_lem m n start zero k total hi small c e within used = record {
  counts = c;
  pages = λ j. ground arith;
}
release_lem m n start (suc left) k total hi small c e within used =
    let exact : add64 start k ≡ start + k = omega arith in
    let here = used (start + k) (omega arith) (omega arith) in
    let cleared = bitmap_test-bitmap_clear c.bytes (start + k) in
    let counted = count_free-bitmap_clear c.bytes (start + k) total (omega arith) here in
    let ih =
      release_lem (bitmap_clear m (start + k)) (add64 n 1) start left (k + 1) total hi small
        (record {
          bytes = bitmap_clear-IsBytes c.bytes (start + k);
          count = omega (arith, counted, c.count, count_free-le m total);
        })
        (omega arith) within (λ i a b. ground (arith, cleared i, used i)) in
    rw exact (record { counts = ih.counts; pages = λ j. ground (arith, ih.pages j, cleared j) })

pub release_all_lem :
    (es : List Entry) (s : Bitmap × ℕ) (total top : ℕ)
    → total ≡ top / page_size
    → total < 2 ^ 52
    → All (λ e. e.base + e.len ≤ top) es
    → IsSeparate es
    → Counts total s
    → ((i : ℕ) → is_usable es i ≡ true → bitmap_test s.0 i ≡ 1)
    → Marks total 0 (is_usable es) s (release_all es s)
unfolding release_all
release_all_lem [] s total top e small below apart c used = record { counts = c; pages = λ j. refl }
release_all_lem (e ∷ es) s total top eq small below apart c used =
    elim (Bool-cases (e.kind == usable)) [
      | inl k ↦
          (let first =
              release_lem s.0 s.1 (e.base / page_size) (e.len / page_size) 0 total
                (e.base / page_size + e.len / page_size) small c (omega arith)
                (omega (arith, below.0)) (λ i a b. ground (arith, used i)) in
            let ih =
              release_all_lem es (release s (e.base / page_size) (e.len / page_size) 0) total top eq
                small below.1 apart.1 first.counts
                (λ i u. ground (arith, first.pages i, used i, apart.0 i)) in
            rw k (record {
              counts = ih.counts;
              pages = λ j. ground (arith, ih.pages j, first.pages j, k);
            }))
      | inr k ↦
          (let ih =
              release_all_lem es s total top eq small below.1 apart.1 c
                (λ i u. ground (arith, used i)) in
            rw k (record { counts = ih.counts; pages = λ j. ground (arith, ih.pages j, k) }))
    ]
