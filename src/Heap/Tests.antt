-- ===== src/Heap/Tests.antt =====
-- Runs of the heap, and its theorems at concrete inputs.
use mathlib.Core.Option
use innovati_os.Base.{
  ℕ, zero, suc, ◌+◌, ◌-◌, ◌^◌, ◌<◌, ◌≡◌, refl, ◌⊎◌, true, false, none, some, List, [], ◌∷◌, ◌==◌,
  if◌then◌else◌, arith, test_bit,
}
use innovati_os.Pmm.{Pmm, bitmap_test}
use innovati_os.Pmm.Count.{count_free}
use innovati_os.Pmm.Invariant
use innovati_os.Heap.{
  Heap, Memory, header_size, align8, walk, take_block, kmalloc, merge_next, kfree,
}
use innovati_os.Heap.Blocks.{Block, first_fit, alloc, release, is_block}
use innovati_os.Heap.Chain.{IsHeap}
use innovati_os.Heap.Malloc.{kmalloc_lem}
use innovati_os.Heap.Free.{kfree_lem}
use innovati_os.Heap.InUse.{live}
use innovati_os.Heap.Live.{Allocated, kmalloc-Allocated, kfree-kmalloc}
use innovati_os.Heap.Init.{kmalloc_overflow}

-- A block in use of 16 bytes at 4096, and a free one of 200 behind it.
abbrev two_blocks : List Block
two_blocks =
    record { at = 4096; size = 16; free = false }
    ∷ record { at = 4136; size = 200; free = true }
    ∷ []

abbrev two_heap : Heap
two_heap = record {
  head = 4096;
  mem = λ a.
      if a == 4096
      then record { size = 16; free = false; next = 4136 }
      else record { size = 200; free = true; next = 0 };
}

two-IsHeap : IsHeap 4096 4360 two_blocks two_heap
two-IsHeap = record {
  above_null = omega arith;
  small = omega arith;
  chain =
      (refl, refl, refl, refl, omega arith, (refl, refl, refl, refl, omega arith, (refl, refl)));
}

-- The pointers that three requests of 10 bytes get in turn, and one that does not fit.
kmalloc_runs : Option.map (λ (r : Heap × ℕ). r.1) (kmalloc 3 two_heap 10) ≡ some 4160
unfolding kmalloc walk align8 take_block
kmalloc_runs = refl

kmalloc_too_large : Option.map (λ (r : Heap × ℕ). r.1) (kmalloc 3 two_heap 201) ≡ some 0
unfolding kmalloc walk align8 take_block
kmalloc_too_large = refl

-- Freeing the first block takes in the second.
kfree_runs : (kfree two_heap 4120).mem 4096 ≡ record { size = 240; free = true; next = 0 }
unfolding kfree merge_next
kfree_runs = refl

kmalloc_lem_example :
    ((first_fit (align8 10) two_blocks ≡ none) × (kmalloc 3 two_heap 10 ≡ some (two_heap, 0)))
    ⊎ ((a : ℕ) × (g : Heap) × (first_fit (align8 10) two_blocks ≡ some a)
        × (kmalloc 3 two_heap 10 ≡ some (g, a + header_size))
        × IsHeap 4096 4360 (alloc (align8 10) two_blocks) g)
kmalloc_lem_example =
    kmalloc_lem 3 4096 4360 two_blocks two_heap 10 two-IsHeap (omega arith) (omega arith)
      (omega arith)

kfree_lem_example : IsHeap 4096 4360 (release 4096 two_blocks) (kfree two_heap (4096 + header_size))
unfolding is_block
kfree_lem_example = kfree_lem 4096 4360 4096 two_blocks two_heap two-IsHeap refl

kmalloc-Allocated_example :
    (kmalloc 3 two_heap 10 ≡ some (two_heap, 0))
    ⊎ ((a : ℕ) × (g : Heap) × (kmalloc 3 two_heap 10 ≡ some (g, a + header_size))
        × Allocated 4096 4360 10 (live two_blocks) a g)
kmalloc-Allocated_example =
    kmalloc-Allocated 3 4096 4360 two_blocks two_heap 10 two-IsHeap (omega arith) (omega arith)
      (omega arith)

abbrev taken : Heap
taken = record two_heap { mem = take_block two_heap.mem 4136 16 }

kfree-kmalloc_example :
    (ws : List Block) × IsHeap 4096 4360 ws (kfree taken 4160) × (live ws ≡ live two_blocks)
unfolding kmalloc walk align8
kfree-kmalloc_example =
    kfree-kmalloc 3 4096 4360 two_blocks two_heap taken 10 4160 two-IsHeap (omega arith)
      (omega arith) (omega arith) (omega arith) refl

-- Eight pages, the first of them in use.
abbrev eight : Pmm
eight = record { bitmap = λ i. 1; total_pages = 8; free_pages = 7; scan_hint = 1 }

eight-IsValid : Invariant.IsValid eight
unfolding count_free bitmap_test test_bit
eight-IsValid = record {
  bytes = λ i. omega arith;
  counted = refl;
  below_hint = low;
  hint_in = omega arith;
  small = omega arith;
}
  where
    low : (i : ℕ) → i < 1 → bitmap_test eight.bitmap i ≡ 1
    low zero h = refl
    low (suc i) h = absurd (omega arith)

abbrev no_headers : Memory
no_headers a = record { size = 0; free = false; next = 0 }

abbrev one_heap : Heap
one_heap = record { head = 4096; mem = λ a. record { size = 200; free = true; next = 0 } }

kmalloc_overflow_example :
    (g : Heap) × (kmalloc 1 one_heap (2 ^ 64 - 1) ≡ some (g, 4120)) × ((g.mem 4096).size ≡ 0)
kmalloc_overflow_example =
    kmalloc_overflow 0 4096 4320 (record { at = 4096; size = 200; free = true }) [] one_heap
      (2 ^ 64 - 1)
      (record {
        above_null = omega arith;
        small = omega arith;
        chain = (refl, refl, refl, refl, omega arith, (refl, refl));
      })
      refl (omega arith) (omega arith) (omega arith)
