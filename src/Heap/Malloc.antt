-- ===== src/Heap/Malloc.antt =====
-- `kmalloc` implements `alloc` of the list of blocks.
use innovati_os.Base.{
  ℕ, zero, suc, ◌+◌, ◌-◌, ◌%◌, ◌^◌, ◌≤◌, ◌<◌, ◌≡◌, refl, ◌⊎◌, inl, inr, true, false, none, some,
  List, [], ◌∷◌, ◌==◌, leb, update, update_self, update_ne, ◌∙◌, add64, sub64, arith, length,
  Bool-cases, Option-cases, dec_lt,
}
use innovati_os.Heap.{Header, Memory, Heap, header_size, align8, walk, take_block, kmalloc}
use innovati_os.Heap.Blocks.{Block, fits, first_fit, carve, alloc}
use innovati_os.Heap.Chain.{Chain, IsHeap, Chain-update, Chain-le, Chain-cons}

-- With fuel above the number of blocks the loop ends, at the first block that fits.
walk_lem :
    (fuel : ℕ) (mem : Memory) (ptr lo hi n : ℕ) (bs : List Block)
    → 0 < lo
    → length bs < fuel
    → Chain mem ptr lo hi bs
    → walk fuel mem ptr n ≡ some (first_fit n bs)
unfolding walk first_fit
walk_lem zero mem ptr lo hi n bs pos enough c = absurd (omega arith)
walk_lem (suc fuel) mem ptr lo hi n [] pos enough c = ground arith
walk_lem (suc fuel) mem ptr lo hi n (b ∷ bs) pos enough c =
    let ih =
      walk_lem fuel mem (mem lo).next (lo + header_size + b.size) hi n bs (omega arith)
        (omega arith) c.5 in
    rw c.0 (ground (arith, ih, c.1, c.2, c.3))

pub first_fit-le :
    (mem : Memory) (ptr lo hi n : ℕ) (bs : List Block) {a : ℕ}
    → Chain mem ptr lo hi bs
    → first_fit n bs ≡ some a
    → (lo ≤ a) × (a + header_size + n ≤ hi)
unfolding first_fit
first_fit-le mem ptr lo hi n [] c e = absurd (ground arith)
first_fit-le mem ptr lo hi n (b ∷ bs) {a} c e = elim (Bool-cases (fits n b)) [
  | inl here ↦
      (let top = Chain-le mem (mem lo).next (lo + header_size + b.size) hi bs c.5 in
        ground (arith, c.1, top))
  | inr later ↦
      (let e' : first_fit n bs ≡ some a = rw later at e in
        let ih = first_fit-le mem (mem lo).next (lo + header_size + b.size) hi n bs c.5 e' in
        (omega arith, omega arith))
]

-- Taking a block leaves the headers below it alone.
take_block-below :
    (mem : Memory) (a n x : ℕ) → x < a → a + header_size + n < 2 ^ 64 → take_block mem a n x ≡ mem x
unfolding take_block
take_block-below mem a n x lt small = ground arith

-- The three headers that `take_block` writes, and the memory after it.
abbrev taken_header : ℕ → ℕ → Header
taken_header a n = record { size = n; free = false; next = a + header_size + n }

abbrev rest_header : Header → ℕ → Header
rest_header h n = record { size = h.size - n - header_size; free = true; next = h.next }

abbrev whole_header : Header → Header
whole_header h = record { size = h.size; free = false; next = h.next }

abbrev with_rest : Memory → ℕ → ℕ → Memory
with_rest mem a n = update mem (a + header_size + n) (rest_header (mem a) n)

abbrev split_memory : Memory → ℕ → ℕ → Memory
split_memory mem a n = update (with_rest mem a n) a (taken_header a n)

take_block_split :
    (mem : Memory) (a n : ℕ)
    → a + header_size + (mem a).size + 64 < 2 ^ 64
    → n + header_size + 8 ≤ (mem a).size
    → take_block mem a n ≡ split_memory mem a n
unfolding take_block
take_block_split mem a n small large =
    let at_rest : add64 (add64 a header_size) n ≡ a + header_size + n = omega arith in
    let sum : add64 (add64 n header_size) 8 ≡ n + header_size + 8 = omega arith in
    let left : sub64 (sub64 (mem a).size n) header_size ≡ (mem a).size - n - header_size =
      omega arith in
    let test : leb (n + header_size + 8) (mem a).size ≡ true = ground arith in
    rw (sum, test, at_rest, left) refl

take_block_whole :
    (mem : Memory) (a n : ℕ)
    → n ≤ (mem a).size
    → (mem a).size + 64 < 2 ^ 64
    → (mem a).size < n + header_size + 8
    → take_block mem a n ≡ update mem a (whole_header (mem a))
unfolding take_block
take_block_whole mem a n fit small short =
    let sum : add64 (add64 n header_size) 8 ≡ n + header_size + 8 = omega arith in
    let test : leb (n + header_size + 8) (mem a).size ≡ false = ground arith in rw (sum, test) refl

module _ (mem : Memory) (ptr lo hi n : ℕ) (b : Block) (bs : List Block) (small : hi + 64 < 2 ^ 64)
    (large : 8 ≤ n) (c : Chain mem ptr lo hi (b ∷ bs)) where
  split-Chain :
      n + header_size + 8 ≤ b.size
      → Chain (split_memory mem lo n) ptr lo hi (
          record { at = b.at; size = n; free = false }
          ∷ record { at = b.at + header_size + n; size = b.size - n - header_size; free = true }
          ∷ bs)
  split-Chain roomy =
      let next = lo + header_size + n in
      let rest : Block = record {
        at = b.at + header_size + n;
        size = b.size - n - header_size;
        free = true;
      } in
      let end : next + header_size + (b.size - n - header_size) ≡ lo + header_size + b.size =
        omega arith in
      let tail =
        Chain-update (with_rest mem lo n) (mem lo).next (lo + header_size + b.size) hi lo
          (taken_header lo n) bs (omega arith)
          (Chain-update mem (mem lo).next (lo + header_size + b.size) hi next
            (rest_header (mem lo) n) bs (omega arith) c.5) in
      let at_next : split_memory mem lo n next ≡ rest_header (mem lo) n =
        update_ne (with_rest mem lo n) lo (taken_header lo n) next (omega arith)
        ∙ update_self mem next (rest_header (mem lo) n) in
      let second =
        Chain-cons (split_memory mem lo n) next hi rest bs (rest_header (mem lo) n) at_next
          (omega (arith, c.1)) (omega (arith, c.2)) refl (omega arith) (rw end tail) in
      rw c.0 (
        Chain-cons (split_memory mem lo n) lo hi (record { at = b.at; size = n; free = false })
          (rest ∷ bs) (taken_header lo n) (update_self (with_rest mem lo n) lo (taken_header lo n))
          c.1 refl refl large second)

  whole-Chain :
      Chain (update mem lo (whole_header (mem lo))) ptr lo hi (record b { free = false } ∷ bs)
  whole-Chain = rw c.0 (
      Chain-cons (update mem lo (whole_header (mem lo))) lo hi (record b { free = false }) bs
        (whole_header (mem lo)) (update_self mem lo (whole_header (mem lo))) c.1 c.2 refl c.4
        (Chain-update mem (mem lo).next (lo + header_size + b.size) hi lo (whole_header (mem lo)) bs
          (omega arith) c.5))

  carve-Chain : fits n b ≡ true → Chain (take_block mem lo n) ptr lo hi (carve n b bs)
  unfolding carve
  carve-Chain fit =
      let top = Chain-le mem (mem lo).next (lo + header_size + b.size) hi bs c.5 in
      let in_block : n ≤ b.size = ground arith in
      elim (dec_lt b.size (n + header_size + 8)) [
        | no roomy ↦
            (let test : leb (n + header_size + 8) b.size ≡ true = ground arith in
              rw (take_block_split mem lo n (omega (arith, c.2)) (omega (arith, c.2)), test)
                (split-Chain (omega arith)))
        | yes tight ↦
            (let test : leb (n + header_size + 8) b.size ≡ false = ground arith in
              let done =
                take_block_whole mem lo n (omega (arith, c.2)) (omega (arith, c.2))
                  (omega (arith, c.2)) in
              rw (done, test) whole-Chain)
      ]

take_block-Chain :
    (mem : Memory) (ptr lo hi n : ℕ) (bs : List Block) {a : ℕ}
    → hi + 64 < 2 ^ 64
    → 8 ≤ n
    → Chain mem ptr lo hi bs
    → first_fit n bs ≡ some a
    → Chain (take_block mem a n) ptr lo hi (alloc n bs)
unfolding first_fit alloc
take_block-Chain mem ptr lo hi n [] small large c e = absurd (ground arith)
take_block-Chain mem ptr lo hi n (b ∷ bs) {a} small large c e = elim (Bool-cases (fits n b)) [
  | inl here ↦
      (let at : lo ≡ a = ground (arith, c.1) in
        rw (here, ← at) (carve-Chain mem ptr lo hi n b bs small large c here))
  | inr later ↦
      (let e' : first_fit n bs ≡ some a = rw later at e in
        let place = first_fit-le mem (mem lo).next (lo + header_size + b.size) hi n bs c.5 e' in
        let same : take_block mem a n lo ≡ mem lo =
          take_block-below mem a n lo (omega arith) (omega arith) in
        let ih =
          take_block-Chain mem (mem lo).next (lo + header_size + b.size) hi n bs small large c.5
            e' in
        rw (later, same) (c.0, c.1, c.2, c.3, c.4, ih))
]

pub align8_lem :
    (size : ℕ)
    → size + 7 < 2 ^ 64
    → (align8 size % 8 ≡ 0) × (size ≤ align8 size) × (align8 size ≤ size + 7)
unfolding align8
align8_lem size small = omega arith

-- On a heap whose chain of headers describes the blocks bs of an arena, with more fuel than
-- blocks and a size above 0 that rounds up without wrapping, kmalloc returns NULL and changes
-- nothing if no free block is large enough, and otherwise returns the address behind the first
-- one's header, and the chain then describes the blocks after alloc.
pub kmalloc_lem :
    (fuel lo hi : ℕ) (bs : List Block) (h : Heap) (size : ℕ)
    → IsHeap lo hi bs h
    → length bs < fuel
    → 0 < size
    → size + 7 < 2 ^ 64
    → ((first_fit (align8 size) bs ≡ none) × (kmalloc fuel h size ≡ some (h, 0)))
      ⊎ ((a : ℕ) × (g : Heap) × (first_fit (align8 size) bs ≡ some a)
          × (kmalloc fuel h size ≡ some (g, a + header_size))
          × IsHeap lo hi (alloc (align8 size) bs) g)
unfolding kmalloc
kmalloc_lem fuel lo hi bs h size v enough pos small =
    let n : ℕ = align8 size in
    let nonzero : (size == 0) ≡ false = ground arith in
    let found = walk_lem fuel h.mem h.head lo hi n bs v.above_null enough v.chain in
    elim (Option-cases (first_fit n bs)) [
      | inl e ↦ inl (e, rw (nonzero, found, e) refl)
      | inr (a, e) ↦
          (let place = first_fit-le h.mem h.head lo hi n bs v.chain e in
            let ptr : add64 a header_size ≡ a + header_size = omega (arith, v.small) in
            inr (
              a,
              record h { mem = take_block h.mem a n },
              e,
              rw (nonzero, found, e, ptr) refl,
              record {
                above_null = v.above_null;
                small = v.small;
                chain =
                    take_block-Chain h.mem h.head lo hi n bs v.small
                      (omega (arith, align8_lem size)) v.chain e;
              },
            ))
    ]
