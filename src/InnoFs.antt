-- ===== src/InnoFs.antt =====
-- The file system InnoFS, kernel/src/fs/innofs.c: the bitmap of the sectors in use, and
-- in InnoFs/Path the splitting of paths and the check of rights.
--
-- The disk is a function from the sector to its bytes, in place of the port operations of the disk
-- driver. The scratch buffers that the code allocates and frees around each access are left out.
pub mod Scan
pub mod Alloc
pub mod Sectors
pub mod Path
mod Tests
use innovati_os.Base.{
  ℕ, zero, suc, ◌+◌, ◌-◌, ◌*◌, ◌/◌, ◌%◌, Bool, true, false, Option, none, some, ◌==◌, ltb,
  if◌then◌else◌, update, set_bit, clear_bit, test_bit, bit_and, u32,
}

abbrev pub Sector : Type 0
Sector = ℕ → ℕ

abbrev pub Disk : Type 0
Disk = ℕ → Sector

abbrev pub sector_size : ℕ
sector_size = 512

-- `struct innofs_superblock`, without the magic and the padding
pub record Superblock : Type 0 where
  pub disk_size_sectors : ℕ
  pub bitmap_start_sector : ℕ
  pub bitmap_sectors : ℕ
  pub root_dir_start_sector : ℕ
  pub root_dir_sectors : ℕ
  pub data_start_sector : ℕ

-- The loop over the bits of a byte, with `left` bits to go.
unfoldable pub find_bit : ℕ → ℕ → ℕ → Option ℕ
find_bit b zero bit = none
find_bit b (suc left) bit = if test_bit b bit == 0 then some bit else find_bit b left (bit + 1)

-- The loop over the bytes of a sector, with `left` bytes to go.
unfoldable pub find_byte : Sector → ℕ → ℕ → Option (ℕ × ℕ)
find_byte bitmap zero byte = none
find_byte bitmap (suc left) byte =
    let rest = find_byte bitmap left (byte + 1) in
    if bitmap byte == 0xFF
    then rest
    else elim (find_bit (bitmap byte) 8 0) [ some bit ↦ some (byte, bit) | none ↦ rest ]

-- The body of the inner loop of `bitmap_alloc_sector` at the bit that it takes.
unfoldable pub mark : Disk → ℕ → ℕ → ℕ → Disk
mark disk sector byte bit =
    update disk sector (update (disk sector) byte (set_bit (disk sector byte) bit))

-- The loop over the sectors of the bitmap, with `left` sectors to go.
unfoldable pub alloc_from : Disk → ℕ → ℕ → ℕ → Disk × ℕ
alloc_from disk start zero i = (disk, 0)
alloc_from disk start (suc left) i =
    let rest = alloc_from disk start left (i + 1) in
    let sector : ℕ = u32 (start + i) in
    elim (find_byte (disk sector) sector_size 0) [
      | some (byte, bit) ↦ (mark disk sector byte bit, u32 (i * sector_size * 8 + byte * 8 + bit))
      | none ↦ rest
    ]

unfoldable pub bitmap_alloc_sector : Disk → Superblock → Disk × ℕ
bitmap_alloc_sector disk sb = alloc_from disk sb.bitmap_start_sector sb.bitmap_sectors 0

unfoldable pub bitmap_free_sector : Disk → Superblock → ℕ → Disk
bitmap_free_sector disk sb sector =
    if ltb sector sb.data_start_sector
    then disk
    else update disk at (update (disk at) byte (clear_bit (disk at byte) (sector % 8)))
  where
    at : ℕ
    at = u32 (sb.bitmap_start_sector + sector / (sector_size * 8))

    byte : ℕ
    byte = sector % (sector_size * 8) / 8
