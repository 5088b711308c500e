-- ===== src/InnoFs/Sectors.antt =====
-- The free-sector bitmap as a whole: what `bitmap_alloc_sector` and `bitmap_free_sector` promise.
use innovati_os.Base.{
  ℕ, ◌+◌, ◌*◌, ◌/◌, ◌%◌, ◌^◌, ◌≤◌, ◌<◌, ◌≡◌, ◌≢◌, sym, ap, ◌∙◌, ◌⊎◌, inl, inr, false, ltb, arith,
  ℕ_discrete, dec_lt, set_bit, clear_bit, test_bit-set_bit, test_bit-clear_bit, bit_bounds, u32,
}
use mathlib.Core.Path.{ap₂}
use innovati_os.InnoFs.{Disk, Superblock, mark, bitmap_alloc_sector, bitmap_free_sector}
use innovati_os.InnoFs.Scan.{IsSector}
use innovati_os.InnoFs.Alloc.{in_use, SetsBit, write_bit-SetsBit, alloc_from_lem}

abbrev pub is_taken : Disk → Superblock → ℕ → ℕ
is_taken disk sb n = in_use disk sb.bitmap_start_sector n

-- The disk holds bytes, the sectors in front of the data are in use, and the numbers of the sectors
-- that the bitmap covers and of those that it stands in have 32 bits.
pub record IsVolume (disk : Disk) (sb : Superblock) : Type 0 where
  pub bytes : (a : ℕ) → IsSector (disk a)
  pub reserved : (n : ℕ) → n < sb.data_start_sector → is_taken disk sb n ≡ 1
  pub small : sb.bitmap_sectors ≤ 2 ^ 20
  pub placed : sb.bitmap_start_sector + sb.bitmap_sectors ≤ 2 ^ 32

-- Every sector that the bitmap covers is in use.
abbrev pub IsFull : Disk → Superblock → Type 0
IsFull disk sb = (n : ℕ) → n < sb.bitmap_sectors * 4096 → is_taken disk sb n ≡ 1

-- The lowest sector that is not in use.
pub record IsLowestFree (disk : Disk) (sb : Superblock) (n : ℕ) : Type 0 where
  pub within : n < sb.bitmap_sectors * 4096
  pub in_data : sb.data_start_sector ≤ n
  pub free : is_taken disk sb n ≡ 0
  pub lowest : (m : ℕ) → m < n → is_taken disk sb m ≡ 1

mark-SetsBit :
    (disk : Disk) (start n : ℕ)
    → ((a : ℕ) → IsSector (disk a))
    → SetsBit disk start n 1 (mark disk (start + n / 4096) (n % 4096 / 8) (n % 8))
unfolding mark
mark-SetsBit disk start n bytes =
    let b : ℕ = disk (start + n / 4096) (n % 4096 / 8) in
    let byte : b < 256 = bytes (start + n / 4096) (n % 4096 / 8) in
    write_bit-SetsBit disk start n 1 (set_bit b (n % 8)) bytes
      (bit_bounds b (n % 8) byte (omega arith)).0
      (λ j lt. test_bit-set_bit b (n % 8) j byte (omega arith) lt)

pub free-SetsBit :
    (disk : Disk) (sb : Superblock) (n : ℕ)
    → ((a : ℕ) → IsSector (disk a))
    → sb.data_start_sector ≤ n
    → sb.bitmap_start_sector + n / 4096 < 2 ^ 32
    → SetsBit disk sb.bitmap_start_sector n 0 (bitmap_free_sector disk sb n)
unfolding bitmap_free_sector
free-SetsBit disk sb n bytes in_data placed =
    let start : ℕ = sb.bitmap_start_sector in
    let b : ℕ = disk (start + n / 4096) (n % 4096 / 8) in
    let byte : b < 256 = bytes (start + n / 4096) (n % 4096 / 8) in
    let taken : ltb n sb.data_start_sector ≡ false = ground arith in
    let at : u32 (start + n / 4096) ≡ start + n / 4096 = omega (arith, placed) in
    rw (taken, at)
      (write_bit-SetsBit disk start n 0 (clear_bit b (n % 8)) bytes
        (bit_bounds b (n % 8) byte (omega arith)).1
        (λ j lt. test_bit-clear_bit b (n % 8) j byte (omega arith) lt))

reserved-SetsBit :
    (disk disk' : Disk) (sb : Superblock) (n v : ℕ)
    → IsVolume disk sb
    → sb.data_start_sector ≤ n
    → SetsBit disk sb.bitmap_start_sector n v disk'
    → IsVolume disk' sb
reserved-SetsBit disk disk' sb n v w in_data sets = record {
  bytes = sets.bytes;
  reserved = λ m lt. sets.others m (omega arith) ∙ w.reserved m lt;
  small = w.small;
  placed = w.placed;
}

-- On a volume whose sectors in front of the data are in use, and whose bitmap has at most 2^20
-- sectors and lies within the sector numbers below 2^32, bitmap_alloc_sector either finds every
-- sector of the bitmap in use, returns 0 and writes nothing, or returns the lowest free sector,
-- which is a data sector, sets its bit alone, writes no sector off the bitmap, and the volume is
-- still valid.
pub bitmap_alloc_sector_lem :
    (disk : Disk) (sb : Superblock)
    → IsVolume disk sb
    → (IsFull disk sb × (bitmap_alloc_sector disk sb ≡ (disk, 0)))
      ⊎ ((n : ℕ) × (disk' : Disk) × (bitmap_alloc_sector disk sb ≡ (disk', n))
          × IsLowestFree disk sb n
          × SetsBit disk sb.bitmap_start_sector n 1 disk'
          × IsVolume disk' sb)
unfolding bitmap_alloc_sector
bitmap_alloc_sector_lem disk sb v =
    elim (alloc_from_lem disk sb.bitmap_start_sector sb.bitmap_sectors 0 v.bytes
      (omega (arith, v.placed))) [
        | inl h ↦ inl (λ n lt. h.1 n (omega arith) (omega arith), h.0)
        | inr (n, run, lo, hi, free, first) ↦
            (let start : ℕ = sb.bitmap_start_sector in
              let disk' : Disk = mark disk (start + n / 4096) (n % 4096 / 8) (n % 8) in
              let small : u32 n ≡ n = omega (arith, hi, v.small) in
              let in_data : sb.data_start_sector ≤ n = elim (dec_lt n sb.data_start_sector) [
                | yes below ↦ absurd (omega (arith, v.reserved n below, free))
                | no above ↦ omega arith
              ] in
              let sets = mark-SetsBit disk start n v.bytes in
              inr (
                n,
                disk',
                run ∙ ap (λ x. (disk', x)) small,
                record {
                  within = omega (arith, hi);
                  in_data = in_data;
                  free = free;
                  lowest = λ m lt. first m (omega arith) lt;
                },
                sets,
                reserved-SetsBit disk disk' sb n 1 v in_data sets,
              ))
      ]

-- On such a volume, for a sector that the bitmap covers, bitmap_free_sector of a sector in front of
-- the data writes nothing; of any other it clears that sector's bit alone, and the volume is still valid.
pub bitmap_free_sector_lem :
    (disk : Disk) (sb : Superblock) (n : ℕ)
    → IsVolume disk sb
    → n < sb.bitmap_sectors * 4096
    → ((n < sb.data_start_sector) × (bitmap_free_sector disk sb n ≡ disk))
      ⊎ ((sb.data_start_sector ≤ n)
          × SetsBit disk sb.bitmap_start_sector n 0 (bitmap_free_sector disk sb n)
          × IsVolume (bitmap_free_sector disk sb n) sb)
unfolding bitmap_free_sector
bitmap_free_sector_lem disk sb n v within = elim (dec_lt n sb.data_start_sector) [
  | yes below ↦ inl (below, ground arith)
  | no above ↦
      (let in_data : sb.data_start_sector ≤ n = omega arith in
        let sets = free-SetsBit disk sb n v.bytes in_data (omega (arith, within, v.placed)) in
        inr (
          in_data,
          sets,
          reserved-SetsBit disk (bitmap_free_sector disk sb n) sb n 0 v in_data sets,
        ))
]

-- On a volume whose sectors in front of the data are in use, and whose bitmap has at most 2^20
-- sectors and lies within the sector numbers below 2^32, freeing the sector that
-- bitmap_alloc_sector has returned, if it is not 0, restores the bit of every sector.
pub bitmap_free_sector-bitmap_alloc_sector :
    (disk disk' : Disk) (sb : Superblock) (n m : ℕ)
    → IsVolume disk sb
    → n ≢ 0
    → bitmap_alloc_sector disk sb ≡ (disk', n)
    → is_taken (bitmap_free_sector disk' sb n) sb m ≡ is_taken disk sb m
bitmap_free_sector-bitmap_alloc_sector disk disk' sb n m v some_sector run =
    elim (bitmap_alloc_sector_lem disk sb v) [
      | inl h ↦ absurd (some_sector (sym (ap (λ r. r.1) (sym (h.1) ∙ run))))
      | inr (k, d, run', low, sets, w) ↦
          (let disks : d ≡ disk' = ap (λ r. r.0) (sym run' ∙ run) in
            let sector : k ≡ n = ap (λ r. r.1) (sym run' ∙ run) in
            let back =
              free-SetsBit d sb k w.bytes low.in_data (omega (arith, low.within, w.placed)) in
            let undone : is_taken (bitmap_free_sector d sb k) sb m ≡ is_taken disk sb m =
              elim (ℕ_discrete m k) [
                | yes same ↦
                    ap (is_taken (bitmap_free_sector d sb k) sb) same
                    ∙ back.bit
                    ∙ sym low.free
                    ∙ ap (is_taken disk sb) (sym same)
                | no other ↦ back.others m other ∙ sets.others m other
              ] in
            ap₂ (λ x y. is_taken (bitmap_free_sector x sb y) sb m) (sym disks) (sym sector)
            ∙ undone)
    ]
