-- ===== src/Heap/Live.antt =====
-- What `kmalloc` and `kfree` mean to the callers: the blocks in use.
use innovati_os.Base.{
  ℕ, ◌+◌, ◌≤◌, ◌<◌, ◌≡◌, ◌≢◌, ◌⊎◌, inl, inr, true, false, some, List, arith, length, ◌^◌,
}
use mathlib.Core.Path.{subst₂}
use innovati_os.Heap.{Heap, header_size, align8, kmalloc, kfree}
use innovati_os.Heap.Blocks.{Block, alloc, release}
use innovati_os.Heap.Chain.{IsHeap}
use innovati_os.Heap.Malloc.{align8_lem, kmalloc_lem}
use innovati_os.Heap.Free.{kfree_lem}
use innovati_os.Heap.InUse.{
  live, Apart, Within, Inserted, is_live, live-alloc, is_live-is_block, live-release,
  live-release-alloc, live-Within, live-Apart,
}

-- What `kmalloc` gives out lies within the arena, is as large as was asked for, and meets no other
-- block in use; those stay as they are.
pub record Allocated (lo hi size : ℕ) (before : List Block) (a : ℕ) (g : Heap) : Type 0 where
  pub blocks : List Block
  pub heap : IsHeap lo hi blocks g
  pub room : ℕ
  pub enough : size ≤ room
  pub inserted : Inserted (record { at = a; size = room; free = false }) before (live blocks)
  pub apart : Apart (live blocks)
  pub within : Within lo hi (live blocks)

-- On a well-formed heap, with more fuel than blocks and a size above 0 that rounds up without
-- wrapping, kmalloc returns NULL without a change, or a block inside the arena that is at least
-- as large as was asked for; the blocks in use are the earlier ones unchanged and this one, and
-- no two of them meet.
pub kmalloc-Allocated :
    (fuel lo hi : ℕ) (bs : List Block) (h : Heap) (size : ℕ)
    → IsHeap lo hi bs h
    → length bs < fuel
    → 0 < size
    → size + 7 < 2 ^ 64
    → (kmalloc fuel h size ≡ some (h, 0))
      ⊎ ((a : ℕ) × (g : Heap) × (kmalloc fuel h size ≡ some (g, a + header_size))
          × Allocated lo hi size (live bs) a g)
kmalloc-Allocated fuel lo hi bs h size v enough pos small =
    elim (kmalloc_lem fuel lo hi bs h size v enough pos small) [
      | inl r ↦ inl r.1
      | inr (a, g, e, run, w) ↦
          (let more = live-alloc (align8 size) bs e in
            inr (
              a,
              g,
              run,
              record {
                blocks = alloc (align8 size) bs;
                heap = w;
                room = more.0;
                enough = omega (arith, more.1, align8_lem size small);
                inserted = more.2;
                apart = live-Apart g.mem g.head lo hi _ w.chain;
                within = live-Within g.mem g.head lo hi lo _ w.chain (omega arith);
              },
            ))
    ]

-- On a well-formed heap, kfree of a block in use gives a well-formed heap in which that block
-- alone is no longer in use.
pub kfree-live :
    (lo hi a : ℕ) (bs : List Block) (h : Heap)
    → IsHeap lo hi bs h
    → is_live a bs ≡ true
    → (ws : List Block) × IsHeap lo hi ws (kfree h (a + header_size))
      × ((b : Block) × (b.at ≡ a) × Inserted b (live ws) (live bs))
kfree-live lo hi a bs h v e =
    (release a bs, kfree_lem lo hi a bs h v (is_live-is_block a bs e), live-release a bs e)

-- On a well-formed heap, with more fuel than blocks, a size above 0 that rounds up without
-- wrapping and a result other than NULL, kfree of what kmalloc returned gives a well-formed heap
-- with the same blocks in use as before.
pub kfree-kmalloc :
    (fuel lo hi : ℕ) (bs : List Block) (h g : Heap) (size ptr : ℕ)
    → IsHeap lo hi bs h
    → length bs < fuel
    → 0 < size
    → size + 7 < 2 ^ 64
    → ptr ≢ 0
    → kmalloc fuel h size ≡ some (g, ptr)
    → (ws : List Block) × IsHeap lo hi ws (kfree g ptr) × (live ws ≡ live bs)
kfree-kmalloc fuel lo hi bs h g size ptr v enough pos small nonzero run =
    elim (kmalloc_lem fuel lo hi bs h size v enough pos small) [
      | inl r ↦ absurd (ground (arith, r.1))
      | inr (a, w, e, run', heap) ↦
          (let same : (w ≡ g) × (a + header_size ≡ ptr) = ground (arith, run') in
            let back = live-release-alloc h.mem h.head lo hi (align8 size) bs v.chain e in
            let n = align8 size in
            (
              release a (alloc n bs),
              subst₂ (λ (x : Heap) (p : ℕ). IsHeap lo hi (release a (alloc n bs)) (kfree x p))
                  same.0 same.1
                  (kfree_lem lo hi a (alloc n bs) w heap (is_live-is_block a _ back.0)),
              back.1,
            ))
    ]
