-- ===== src/Heap/Init.antt =====
-- `heap_init` on top of the page allocator, and the overflow of `ALIGN8`.
use innovati_os.Base.{
  ℕ, zero, suc, ◌+◌, ◌-◌, ◌*◌, ◌^◌, ◌≤◌, ◌<◌, ◌≡◌, refl, ◌∙◌, ◌⊎◌, inl, inr, true, false, none,
  some, List, [], ◌∷◌, ◌==◌, update, update_self, add64, sub64, mul64, arith,
}
use innovati_os.Pmm.{Pmm, page_size}
use innovati_os.Pmm.Pages.{IsFirstRun, TakesRun, alloc_pages_lem}
use innovati_os.Pmm.Invariant
use innovati_os.Heap.{
  Header, Memory, Heap, header_size, align8, walk, take_block, kmalloc, heap_init,
}
use innovati_os.Heap.Blocks.{Block}
use innovati_os.Heap.Chain.{Chain-le, IsHeap}

-- The one block of a new heap.
abbrev pub whole : ℕ → ℕ → Block
whole lo pages = record { at = lo; size = pages * page_size - header_size; free = true }

-- With a valid page allocator, a count of pages above 0 and an offset at which its pages do not
-- wrap around, heap_init halts without a heap, or it takes the first run of that many free pages
-- and the heap is one free block over exactly these.
pub heap_init_lem :
    (p : Pmm) (mem : Memory) (hhdm_offset pages : ℕ)
    → Invariant.IsValid p
    → 0 < pages
    → p.total_pages * page_size + hhdm_offset + 64 < 2 ^ 64
    → ((q : Pmm) × (heap_init p mem hhdm_offset pages ≡ some (q, none)))
      ⊎ ((start : ℕ) × (q : Pmm) × (h : Heap) × (heap_init p mem hhdm_offset pages
            ≡ some (q, some h))
          × (0 < start)
          × IsFirstRun p start pages
          × TakesRun p start pages q
          × IsHeap
              (start * page_size + hhdm_offset)
              ((start + pages) * page_size + hhdm_offset)
              (whole (start * page_size + hhdm_offset) pages ∷ [])
              h)
unfolding heap_init
heap_init_lem p mem hhdm pages v pos small = elim (alloc_pages_lem p pages v) [
  | inl r ↦ inl (p, rw (r.0, heap_init) refl)
  | inr (zero, q, e, first, t) ↦ inl (q, rw (e, heap_init) refl)
  | inr (suc s, q, e, first, t) ↦
      (let head : ℕ = suc s * page_size + hhdm in
        let at_head : add64 (suc s * page_size) hhdm ≡ head = omega (arith, first.within) in
        let test : (suc s * page_size == 0) ≡ false = ground arith in
        let size : sub64 (mul64 pages page_size) header_size ≡ pages * page_size - header_size =
          omega (arith, first.within) in
        let header : Header = record {
          size = pages * page_size - header_size;
          free = true;
          next = 0;
        } in
        inr (
          suc s,
          q,
          record { head = head; mem = update mem head header },
          rw (e, heap_init) (rw (test, at_head, size) refl),
          omega arith,
          first,
          t,
          record {
            above_null = omega arith;
            small = omega (arith, first.within);
            chain =
                rw (update_self mem head header)
                  (refl, refl, refl, refl, omega arith, (refl, omega arith));
          },
        ))
]

-- The loop stops at the first block, if that is free and as large as `n`.
walk-first :
    (fuel : ℕ) (h : Heap) (lo n : ℕ)
    → h.head ≡ lo
    → 0 < lo
    → (h.mem lo).free ≡ true
    → n ≤ (h.mem lo).size
    → walk (suc fuel) h.mem h.head n ≡ some (some lo)
unfolding walk
walk-first fuel h lo n head pos free room = simp head (ground arith)

-- On a well-formed heap whose first block is free and holds 8 bytes and a header, kmalloc of a
-- size less than 7 below 2^64 does not fail: it returns that block, cut down to 0 bytes.
pub kmalloc_overflow :
    (fuel lo hi : ℕ) (b : Block) (bs : List Block) (h : Heap) (size : ℕ)
    → IsHeap lo hi (b ∷ bs) h
    → b.free ≡ true
    → header_size + 8 ≤ b.size
    → size < 2 ^ 64
    → 2 ^ 64 ≤ size + 7
    → (g : Heap) × (kmalloc (suc fuel) h size ≡ some (g, lo + header_size)) × ((g.mem lo).size ≡ 0)
unfolding kmalloc take_block align8
kmalloc_overflow fuel lo hi b bs h size v free room below over =
    let n : align8 size ≡ 0 = omega arith in
    let nonzero : (size == 0) ≡ false = ground arith in
    let used : (h.mem lo).size ≡ b.size = v.chain.2 in
    let stop : walk (suc fuel) h.mem h.head (align8 size) ≡ some (some lo) =
      walk-first fuel h lo (align8 size) v.chain.0 v.above_null (v.chain.3 ∙ free)
        (omega (arith, n)) in
    let top = Chain-le h.mem (h.mem lo).next (lo + header_size + b.size) hi bs v.chain.5 in
    let ptr : add64 lo header_size ≡ lo + header_size = omega (arith, v.small) in
    (
      record h { mem = take_block h.mem lo (align8 size) },
      rw (nonzero, stop, ptr) refl,
      ground (arith, n, used),
    )
