-- ===== src/Heap/Blocks.antt =====
-- What the heap promises, over the list of its blocks in the order of their addresses.
use innovati_os.Base.{
  ℕ, ◌+◌, ◌-◌, Bool, true, false, ◌&&◌, Option, none, some, List, [], ◌∷◌, ◌==◌, leb, if◌then◌else◌,
}
use innovati_os.Heap.{header_size}

pub record Block : Type 0 where
  pub at : ℕ
  pub size : ℕ
  pub free : Bool

abbrev pub fits : ℕ → Block → Bool
fits n b = b.free && leb n b.size

-- The first free block that is large enough.
unfoldable pub first_fit : ℕ → List Block → Option ℕ
first_fit n [] = none
first_fit n (b ∷ bs) = if fits n b then some b.at else first_fit n bs

-- A block after `n` of its bytes have been taken: the rest becomes a block if it is large enough.
unfoldable pub carve : ℕ → Block → List Block → List Block
carve n b bs =
    if leb (n + header_size + 8) b.size
    then record { at = b.at; size = n; free = false }
      ∷ record { at = b.at + header_size + n; size = b.size - n - header_size; free = true }
      ∷ bs
    else record b { free = false } ∷ bs

unfoldable pub alloc : ℕ → List Block → List Block
alloc n [] = []
alloc n (b ∷ bs) = if fits n b then carve n b bs else b ∷ alloc n bs

-- A freed block takes in the next one if that is free.
unfoldable pub absorb : Block → List Block → List Block
absorb b [] = record b { free = true } ∷ []
absorb b (c ∷ bs) =
    if c.free
    then record { at = b.at; size = b.size + header_size + c.size; free = true } ∷ bs
    else record b { free = true } ∷ c ∷ bs

unfoldable pub release : ℕ → List Block → List Block
release a [] = []
release a (b ∷ bs) = if b.at == a then absorb b bs else b ∷ release a bs

-- A block begins at `a`.
unfoldable pub is_block : ℕ → List Block → Bool
is_block a [] = false
is_block a (b ∷ bs) = if b.at == a then true else is_block a bs
