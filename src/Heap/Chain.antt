-- ===== src/Heap/Chain.antt =====
-- The headers in memory form the list of blocks, which fill the arena without gap or overlap.
use innovati_os.Base.{
  ℕ, ◌+◌, ◌*◌, ◌^◌, ◌≤◌, ◌<◌, ◌≡◌, refl, ap, ◌∙◌, List, [], ◌∷◌, update, arith, length,
}
use innovati_os.Heap.{Header, Memory, Heap, header_size}
use innovati_os.Heap.Blocks.{Block}

-- From the pointer `ptr` on, the headers in `mem` are the blocks, which fill `lo` to `hi`.
abbrev pub Chain : Memory → ℕ → ℕ → ℕ → List Block → Type 0
Chain mem ptr lo hi [] = (ptr ≡ 0) × (lo ≡ hi)
Chain mem ptr lo hi (b ∷ bs) =
    (ptr ≡ lo)
    × (b.at ≡ lo)
    × ((mem lo).size ≡ b.size)
    × ((mem lo).free ≡ b.free)
    × (8 ≤ b.size)
    × Chain mem (mem lo).next (lo + header_size + b.size) hi bs

-- The heap `h` consists of the blocks, between `lo` and `hi`, and ends short of the top of the
-- address space.
pub record IsHeap (lo hi : ℕ) (bs : List Block) (h : Heap) : Type 0 where
  pub above_null : 0 < lo
  pub small : hi + 64 < 2 ^ 64
  pub chain : Chain h.mem h.head lo hi bs

pub Chain-le : (mem : Memory) (ptr lo hi : ℕ) (bs : List Block) → Chain mem ptr lo hi bs → lo ≤ hi
Chain-le mem ptr lo hi [] c = omega (arith, c.1)
Chain-le mem ptr lo hi (b ∷ bs) c =
    omega (arith, Chain-le mem (mem lo).next (lo + header_size + b.size) hi bs c.5)

-- The number of blocks is bounded by the arena's size.
pub length-Chain :
    (mem : Memory) (ptr lo hi : ℕ) (bs : List Block)
    → Chain mem ptr lo hi bs
    → lo + (header_size + 8) * length bs ≤ hi
length-Chain mem ptr lo hi [] c = omega (arith, c.1)
length-Chain mem ptr lo hi (b ∷ bs) c =
    omega (arith, c.4, length-Chain mem (mem lo).next (lo + header_size + b.size) hi bs c.5)

-- Headers below the chain do not matter to it.
pub Chain-update :
    (mem : Memory) (ptr lo hi a : ℕ) (v : Header) (bs : List Block)
    → a < lo
    → Chain mem ptr lo hi bs
    → Chain (update mem a v) ptr lo hi bs
Chain-update mem ptr lo hi a v [] lt c = c
Chain-update mem ptr lo hi a v (b ∷ bs) lt c =
    let other : update mem a v lo ≡ mem lo = ground arith in
    rw other (
      c.0,
      c.1,
      c.2,
      c.3,
      c.4,
      Chain-update mem (mem lo).next (lo + header_size + b.size) hi a v bs (omega arith) c.5,
    )

-- A block in front of a chain, from the header that stands there.
pub Chain-cons :
    (mem : Memory) (lo hi : ℕ) (b : Block) (bs : List Block) (h : Header)
    → mem lo ≡ h
    → b.at ≡ lo
    → h.size ≡ b.size
    → h.free ≡ b.free
    → 8 ≤ b.size
    → Chain mem h.next (lo + header_size + b.size) hi bs
    → Chain mem lo lo hi (b ∷ bs)
Chain-cons mem lo hi b bs h e at size free large c = (
  refl,
  at,
  ap (λ (x : Header). x.size) e ∙ size,
  ap (λ (x : Header). x.free) e ∙ free,
  large,
  rw (← ap (λ (x : Header). x.next) e) at c,
)
