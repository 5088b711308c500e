-- ===== src/InnoFs/Tests.antt =====
-- Witnesses for the file system.
use innovati_os.Base.{ℕ, zero, suc, ◌<◌, ◌≡◌, refl, ◌⊎◌, ◌&&◌, ◌==◌, if◌then◌else◌, arith, test_bit}
use innovati_os.InnoFs.{
  Disk, Superblock, find_bit, find_byte, alloc_from, mark, bitmap_alloc_sector, bitmap_free_sector,
}
use innovati_os.InnoFs.Alloc.{SetsBit}
use innovati_os.InnoFs.Sectors.{
  IsVolume, IsFull, IsLowestFree, is_taken, bitmap_alloc_sector_lem,
  bitmap_free_sector-bitmap_alloc_sector,
}

-- A bitmap of one sector, in which the first three sectors are in use.
abbrev test_disk : Disk
test_disk a x = if (a == 1) && (x == 0) then 7 else 0

abbrev test_volume : Superblock
test_volume = record {
  disk_size_sectors = 4096;
  bitmap_start_sector = 1;
  bitmap_sectors = 1;
  root_dir_start_sector = 2;
  root_dir_sectors = 1;
  data_start_sector = 3;
}

test-reserved : (n : ℕ) → n < 3 → is_taken test_disk test_volume n ≡ 1
unfolding test_bit
test-reserved zero lt = refl
test-reserved (suc zero) lt = refl
test-reserved (suc (suc zero)) lt = refl
test-reserved (suc (suc (suc n))) lt = absurd (omega arith)

test-IsVolume : IsVolume test_disk test_volume
test-IsVolume = record {
  bytes = λ a x. ground arith;
  reserved = test-reserved;
  small = omega arith;
  placed = omega arith;
}

bitmap_alloc_sector_lem_example :
    (IsFull test_disk test_volume × (bitmap_alloc_sector test_disk test_volume ≡ (test_disk, 0)))
    ⊎ ((n : ℕ) × (disk' : Disk) × (bitmap_alloc_sector test_disk test_volume ≡ (disk', n))
        × IsLowestFree test_disk test_volume n
        × SetsBit test_disk 1 n 1 disk'
        × IsVolume disk' test_volume)
bitmap_alloc_sector_lem_example = bitmap_alloc_sector_lem test_disk test_volume test-IsVolume

taken : bitmap_alloc_sector test_disk test_volume ≡ (mark test_disk 1 0 3, 3)
unfolding bitmap_alloc_sector alloc_from find_byte find_bit test_bit
taken = refl

bitmap_free_sector-bitmap_alloc_sector_example :
    is_taken (bitmap_free_sector (mark test_disk 1 0 3) test_volume 3) test_volume 3
    ≡ is_taken test_disk test_volume 3
bitmap_free_sector-bitmap_alloc_sector_example =
    bitmap_free_sector-bitmap_alloc_sector test_disk (mark test_disk 1 0 3) test_volume 3 3
      test-IsVolume (omega arith) taken
