-- ===== src/Heap/Free.antt =====
-- `kfree` implements `release` of the list of blocks.
use innovati_os.Base.{
  ℕ, ◌+◌, ◌^◌, ◌≤◌, ◌<◌, ◌≡◌, ◌≢◌, refl, inl, inr, Bool, true, false, ◌&&◌, not, List, [], ◌∷◌,
  ◌==◌, if◌then◌else◌, update, update_self, update_ne, ◌∙◌, subst, sym, add64, sub64, arith,
  Bool-cases, ℕ_discrete,
}
use innovati_os.Heap.{Header, Memory, Heap, header_size, merge_next, kfree}
use innovati_os.Heap.Blocks.{Block, absorb, release, is_block}
use innovati_os.Heap.Chain.{Chain, IsHeap, Chain-update, Chain-le, Chain-cons}

abbrev freed_header : Header → Header
freed_header h = record { size = h.size; free = true; next = h.next }

-- The memory that `kfree` leaves.
abbrev freed : Memory → ℕ → Memory
freed mem a = merge_next (update mem a (freed_header (mem a))) a

-- Only the header at `a` is written.
freed_ne : (mem : Memory) (a x : ℕ) → x ≢ a → freed mem a x ≡ mem x
unfolding merge_next
freed_ne mem a x ne = ground arith

-- `merge_next` at a header `b` whose next header is `n`.
merge_next_lem :
    (mem : Memory) (a : ℕ) (b n : Header)
    → mem a ≡ b
    → mem b.next ≡ n
    → merge_next mem a ≡ (
        if not (b.next == 0) && (n.free && (b.next == add64 (add64 a header_size) b.size))
        then update mem a (record {
          size = add64 b.size (add64 header_size n.size);
          free = b.free;
          next = n.next;
        })
        else mem)
unfolding merge_next
merge_next_lem mem a b n e f = simp (e, f)

module _ (mem : Memory) (lo hi : ℕ) (b : Block) (small : hi + 64 < 2 ^ 64) (pos : 0 < lo) where
  -- Nothing to merge with: the end of the list, or a block in use.
  keep :
      (bs : List Block)
      → Chain mem lo lo hi (b ∷ bs)
      → freed mem lo ≡ update mem lo (freed_header (mem lo))
      → Chain (freed mem lo) lo lo hi (record b { free = true } ∷ bs)
  keep bs c e =
      subst (λ (m : Memory). Chain m lo lo hi (record b { free = true } ∷ bs)) (sym e)
        (Chain-cons (update mem lo (freed_header (mem lo))) lo hi (record b { free = true }) bs
          (freed_header (mem lo)) (update_self mem lo (freed_header (mem lo))) c.1 c.2 refl c.4
          (Chain-update mem (mem lo).next (lo + header_size + b.size) hi lo (freed_header (mem lo))
            bs (omega arith) c.5))

  -- The next block is free: the header at `lo` grows over it.
  abbrev next_at : ℕ
  next_at = lo + header_size + b.size

  join :
      (d : Block) (bs : List Block)
      → Chain mem lo lo hi (b ∷ d ∷ bs)
      → freed mem lo
        ≡ update (update mem lo (freed_header (mem lo))) lo (record {
          size = b.size + header_size + (mem next_at).size;
          free = true;
          next = (mem next_at).next;
        })
      → Chain
          (freed mem lo)
          lo
          lo
          hi
          (record { at = b.at; size = b.size + header_size + d.size; free = true } ∷ bs)
  join d bs c e =
      let grown : Header = record {
        size = b.size + header_size + (mem next_at).size;
        free = true;
        next = (mem next_at).next;
      } in
      let end : next_at + header_size + d.size
          ≡ lo + header_size + (b.size + header_size + d.size) =
        omega arith in
      let base = update mem lo (freed_header (mem lo)) in
      let tail : Chain mem (mem next_at).next (lo + header_size + (b.size + header_size + d.size))
          hi bs =
        rw end at c.5.5 in
      subst
        (λ (m : Memory).
          Chain m lo lo hi
            (record { at = b.at; size = b.size + header_size + d.size; free = true } ∷ bs))
        (sym e)
        (Chain-cons (update base lo grown) lo hi
          (record { at = b.at; size = b.size + header_size + d.size; free = true }) bs grown
          (update_self base lo grown) c.1 (omega (arith, c.5.2)) refl (omega (arith, c.4))
          (Chain-update base (mem next_at).next (lo + header_size + (b.size + header_size + d.size))
            hi lo grown bs (omega arith)
            (Chain-update mem (mem next_at).next
              (lo + header_size + (b.size + header_size + d.size)) hi lo (freed_header (mem lo)) bs
              (omega arith) tail)))

  absorb-Chain :
      (bs : List Block) → Chain mem lo lo hi (b ∷ bs) → Chain (freed mem lo) lo lo hi (absorb b bs)
  unfolding absorb
  absorb-Chain [] c =
      let base = update mem lo (freed_header (mem lo)) in
      let self : base lo ≡ record { size = b.size; free = true; next = 0 } =
        ground (arith, c.2, c.5.0) in
      keep [] c (merge_next_lem base lo _ (base 0) self refl)
  absorb-Chain (d ∷ bs) c =
      let base = update mem lo (freed_header (mem lo)) in
      let top = Chain-le mem (mem next_at).next (next_at + header_size + d.size) hi bs c.5.5 in
      let self : base lo ≡ record { size = b.size; free = true; next = next_at } =
        ground (arith, c.2, c.5.0) in
      let other : base next_at ≡ mem next_at =
        update_ne mem lo (freed_header (mem lo)) next_at (omega arith) in
      let here : add64 (add64 lo header_size) b.size ≡ next_at = omega arith in
      let size : add64 b.size (add64 header_size (mem next_at).size)
          ≡ b.size + header_size + (mem next_at).size =
        omega (arith, c.5.2) in
      let merged = merge_next_lem base lo _ (mem next_at) self other in
      elim (Bool-cases d.free) [
        | inl free ↦
            (let test : (not (next_at == 0)
                    && ((mem next_at).free && (next_at == add64 (add64 lo header_size) b.size)))
                  ≡ true =
                ground (arith, c.5.3, here) in
              simp free (join d bs c (merged ∙ rw (test, size) refl)))
        | inr used ↦
            (let test : (not (next_at == 0)
                    && ((mem next_at).free && (next_at == add64 (add64 lo header_size) b.size)))
                  ≡ false =
                ground (arith, c.5.3, here) in
              subst
                (λ (t : Bool). Chain (freed mem lo) lo lo hi (
                  if t
                  then record { at = b.at; size = b.size + header_size + d.size; free = true } ∷ bs
                  else record b { free = true } ∷ d ∷ bs))
                (sym used) (keep (d ∷ bs) c (merged ∙ rw test refl)))
      ]

is_block-le :
    (mem : Memory) (ptr lo hi a : ℕ) (bs : List Block)
    → Chain mem ptr lo hi bs
    → is_block a bs ≡ true
    → (lo ≤ a) × (a < hi)
unfolding is_block
is_block-le mem ptr lo hi a [] c e = absurd (ground arith)
is_block-le mem ptr lo hi a (b ∷ bs) c e = elim (ℕ_discrete lo a) [
  | yes here ↦
      (let top = Chain-le mem (mem lo).next (lo + header_size + b.size) hi bs c.5 in
        (omega arith, omega arith))
  | no later ↦
      (let ih =
          is_block-le mem (mem lo).next (lo + header_size + b.size) hi a bs c.5
            (ground (arith, c.1)) in
        (omega arith, omega arith))
]

freed-Chain :
    (mem : Memory) (ptr lo hi a : ℕ) (bs : List Block)
    → hi + 64 < 2 ^ 64
    → 0 < lo
    → Chain mem ptr lo hi bs
    → is_block a bs ≡ true
    → Chain (freed mem a) ptr lo hi (release a bs)
unfolding release is_block
freed-Chain mem ptr lo hi a [] small pos c e = absurd (ground arith)
freed-Chain mem ptr lo hi a (b ∷ bs) small pos c e = elim (ℕ_discrete lo a) [
  | yes here ↦
      (let test : (b.at == a) ≡ true = ground (arith, c.1) in
        rw (test, c.0, ← here) (absorb-Chain mem lo hi b small pos bs (rw c.0 at c)))
  | no later ↦
      (let test : (b.at == a) ≡ false = ground (arith, c.1) in
        let e' : is_block a bs ≡ true = ground (arith, c.1) in
        let ih =
          freed-Chain mem (mem lo).next (lo + header_size + b.size) hi a bs small (omega arith) c.5
            e' in
        rw test (
          rw c.0 (
            Chain-cons (freed mem a) lo hi b (release a bs) (mem lo) (freed_ne mem a lo later) c.1
              c.2 c.3 c.4 ih)))
]

-- On a heap whose chain describes the blocks bs, kfree of the address behind the header of one of
-- these gives a heap whose chain describes the blocks after release: the block is free and has
-- taken in the next one if that was free.
pub kfree_lem :
    (lo hi a : ℕ) (bs : List Block) (h : Heap)
    → IsHeap lo hi bs h
    → is_block a bs ≡ true
    → IsHeap lo hi (release a bs) (kfree h (a + header_size))
unfolding kfree
kfree_lem lo hi a bs h v e =
    let place = is_block-le h.mem h.head lo hi a bs v.chain e in
    let ptr : sub64 (a + header_size) header_size ≡ a = omega (arith, v.small) in
    let test : (a + header_size == 0) ≡ false = ground arith in
    rw (test, ptr)
      (record {
        above_null = v.above_null;
        small = v.small;
        chain = freed-Chain h.mem h.head lo hi a bs v.small v.above_null v.chain e;
      })
