-- ===== src/Heap.antt =====
-- The kernel heap, kernel/src/mm/heap.c: a linked list of block headers that lie in the memory
-- they describe.
--
-- `mem` gives the header that stands at an address; clients write only to the bytes that they were
-- given, so the headers change by these functions alone. The null pointer is address 0. The
-- `while` loop of `kmalloc` runs on fuel, and `none` is the end of the fuel.
pub mod Blocks
pub mod Chain
pub mod Malloc
pub mod Free
pub mod InUse
pub mod Live
pub mod Init
mod Tests
use innovati_os.Base.{
  ℕ, zero, suc, ◌+◌, ◌-◌, ◌*◌, ◌/◌, Bool, true, false, ◌&&◌, not, Option, none, some, ◌==◌, leb,
  if◌then◌else◌, update, add64, sub64, mul64,
}
use innovati_os.Pmm.{Pmm, page_size, alloc_pages}

-- `block_header_t`
pub record Header : Type 0 where
  pub size : ℕ
  pub free : Bool
  pub next : ℕ

abbrev pub Memory : Type 0
Memory = ℕ → Header

pub record Heap : Type 0 where
  pub head : ℕ
  pub mem : Memory

-- `HEADER_SIZE`: two words and an `int` padded to a word.
abbrev pub header_size : ℕ
header_size = 24

-- `ALIGN8`: the last three bits are cut off after adding 7.
unfoldable pub align8 : ℕ → ℕ
align8 size = add64 size 7 / 8 * 8

-- The `while` loop of `kmalloc` up to the block that it takes; `some none` is its end at NULL.
unfoldable pub walk : ℕ → Memory → ℕ → ℕ → Option (Option ℕ)
walk zero mem cur size = none
walk (suc fuel) mem cur size =
    let rest = walk fuel mem (mem cur).next size in
    if cur == 0
    then some none
    else (if (mem cur).free && leb size (mem cur).size then some (some cur) else rest)

-- The body of the loop at the block that it takes.
unfoldable pub take_block : Memory → ℕ → ℕ → Memory
take_block mem cur size =
    if leb (add64 (add64 size header_size) 8) (mem cur).size
    then (let rest = add64 (add64 cur header_size) size in
        update
          (update mem rest (record {
            size = sub64 (sub64 (mem cur).size size) header_size;
            free = true;
            next = (mem cur).next;
          }))
          cur (record { size = size; free = false; next = rest }))
    else update mem cur (record mem_cur { free = false })
  where
    mem_cur : Header
    mem_cur = mem cur

unfoldable pub kmalloc : ℕ → Heap → ℕ → Option (Heap × ℕ)
kmalloc fuel h size =
    if size == 0 then some (h, 0) else elim (walk fuel h.mem h.head (align8 size)) [
      | none ↦ none
      | some none ↦ some (h, 0)
      | some (some cur) ↦
          some (record h { mem = take_block h.mem cur (align8 size) }, add64 cur header_size)
    ]

-- The merge with the next block.
unfoldable pub merge_next : Memory → ℕ → Memory
merge_next mem blk =
    let b = mem blk in
    if not (b.next == 0) && ((mem b.next).free && (b.next == add64 (add64 blk header_size) b.size))
    then update mem blk (record {
      size = add64 b.size (add64 header_size (mem b.next).size);
      free = b.free;
      next = (mem b.next).next;
    })
    else mem

unfoldable pub kfree : Heap → ℕ → Heap
kfree h ptr =
    if ptr == 0
    then h
    else (let blk = sub64 ptr header_size in
        let b = h.mem blk in
        record h { mem = merge_next (update h.mem blk (record b { free = true })) blk })

-- `heap_init`: the pages come from the page allocator. The inner `none` is the halt after "FATAL".
unfoldable pub heap_init : Pmm → Memory → ℕ → ℕ → Option (Pmm × Option Heap)
heap_init p mem hhdm_offset initial_pages = elim (alloc_pages p initial_pages) [
  | none ↦ none
  | some (q, phys) ↦
      (let head = add64 phys hhdm_offset in
        let first : Header = record {
          size = sub64 (mul64 initial_pages page_size) header_size;
          free = true;
          next = 0;
        } in
        if phys == 0
        then some (q, none)
        else some (q, some (record { head = head; mem = update mem head first })))
]
