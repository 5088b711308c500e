-- ===== src/Heap/InUse.antt =====
-- The blocks in use, and how taking and releasing a block change them.
use innovati_os.Base.{
  ℕ, ◌+◌, ◌≤◌, ◌≡◌, refl, ap, sym, subst, inl, inr, Bool, true, false, some, List, [], ◌∷◌, ◌++◌,
  ◌-◌, not, ◌==◌, leb, if◌then◌else◌, arith, All, Bool-cases, ℕ_discrete,
}
use innovati_os.Heap.{Memory, header_size}
use innovati_os.Heap.Blocks.{Block, fits, first_fit, carve, alloc, absorb, release, is_block}
use innovati_os.Heap.Chain.{Chain, Chain-le}
use innovati_os.Heap.Malloc.{first_fit-le}

-- The blocks in use, in the order of their addresses.
unfoldable pub live : List Block → List Block
live [] = []
live (b ∷ bs) = if b.free then live bs else b ∷ live bs

-- Each block ends, its header counted, at or before the next one begins.
abbrev pub Apart : List Block → Type 0
Apart [] = Unit
Apart (b ∷ bs) = All (λ (c : Block). b.at + header_size + b.size ≤ c.at) bs × Apart bs

abbrev pub Within : ℕ → ℕ → List Block → Type 0
Within lo hi bs = All (λ (c : Block). (lo ≤ c.at) × (c.at + header_size + c.size ≤ hi)) bs

-- `new` was put between two blocks in use, and nothing else changed.
pub record Inserted (new : Block) (before after : List Block) : Type 0 where
  pub left : List Block
  pub right : List Block
  pub was : before ≡ left ++ right
  pub now : after ≡ left ++ new ∷ right

Inserted-cons :
    (new b : Block) (before after : List Block)
    → Inserted new before after
    → Inserted new (b ∷ before) (b ∷ after)
Inserted-cons new b before after i = record {
  left = b ∷ i.left;
  right = i.right;
  was = ap (◌∷◌ b) i.was;
  now = ap (◌∷◌ b) i.now;
}

pub live-alloc :
    (n : ℕ) (bs : List Block) {a : ℕ}
    → first_fit n bs ≡ some a
    → (m : ℕ) × (n ≤ m)
      × Inserted (record { at = a; size = m; free = false }) (live bs) (live (alloc n bs))
unfolding live first_fit alloc carve
live-alloc n [] e = absurd (ground arith)
live-alloc n (b ∷ bs) {a} e = elim (Bool-cases (fits n b)) [
  | inl here ↦
      (let at : b.at ≡ a = ground arith in
        let free : b.free ≡ true = ground arith in
        elim (Bool-cases (leb (n + header_size + 8) b.size)) [
          | inl roomy ↦ (
            n,
            omega arith,
            record { left = []; right = live bs; was = ground arith; now = ground arith },
          )
          | inr tight ↦ (
            b.size,
            ground arith,
            record { left = []; right = live bs; was = ground arith; now = ground arith },
          )
        ])
  | inr later ↦
      (let e' : first_fit n bs ≡ some a = rw later at e in
        let ih = live-alloc n bs e' in
        elim (Bool-cases b.free) [
          | inl free ↦ (
            ih.0,
            ih.1,
            record {
              left = ih.2.left;
              right = ih.2.right;
              was = ground (arith, ih.2.was);
              now = ground (arith, ih.2.now);
            },
          )
          | inr used ↦ (
            ih.0,
            ih.1,
            record {
              left = b ∷ ih.2.left;
              right = ih.2.right;
              was = ground (arith, ih.2.was);
              now = ground (arith, ih.2.now);
            },
          )
        ])
]

live-absorb : (b : Block) (bs : List Block) → live (absorb b bs) ≡ live bs
unfolding live absorb
live-absorb b [] = refl
live-absorb b (c ∷ bs) = ground arith

-- A block in use begins at `a`.
unfoldable pub is_live : ℕ → List Block → Bool
is_live a [] = false
is_live a (b ∷ bs) = if b.at == a then not b.free else is_live a bs

pub is_live-is_block : (a : ℕ) (bs : List Block) → is_live a bs ≡ true → is_block a bs ≡ true
unfolding is_live is_block
is_live-is_block a [] e = e
is_live-is_block a (b ∷ bs) e = ground (arith, is_live-is_block a bs)

pub live-release :
    (a : ℕ) (bs : List Block)
    → is_live a bs ≡ true
    → (b : Block) × (b.at ≡ a) × Inserted b (live (release a bs)) (live bs)
unfolding live is_live release
live-release a [] e = absurd (ground arith)
live-release a (b ∷ bs) e = elim (ℕ_discrete b.at a) [
  | yes here ↦ (
    b,
    here,
    record {
      left = [];
      right = live bs;
      was = ground (arith, live-absorb b bs);
      now = ground arith;
    },
  )
  | no later ↦
      (let ih = live-release a bs (ground arith) in
        elim (Bool-cases b.free) [
          | inl free ↦ (
            ih.0,
            ih.1,
            record {
              left = ih.2.left;
              right = ih.2.right;
              was = ground (arith, ih.2.was);
              now = ground (arith, ih.2.now);
            },
          )
          | inr used ↦ (
            ih.0,
            ih.1,
            record {
              left = b ∷ ih.2.left;
              right = ih.2.right;
              was = ground (arith, ih.2.was);
              now = ground (arith, ih.2.now);
            },
          )
        ])
]

-- Giving back what was just taken leaves the same blocks in use.
pub live-release-alloc :
    (mem : Memory) (ptr lo hi n : ℕ) (bs : List Block) {a : ℕ}
    → Chain mem ptr lo hi bs
    → first_fit n bs ≡ some a
    → (is_live a (alloc n bs) ≡ true) × (live (release a (alloc n bs)) ≡ live bs)
unfolding live is_live release first_fit alloc carve
live-release-alloc mem ptr lo hi n [] c e = absurd (ground arith)
live-release-alloc mem ptr lo hi n (b ∷ bs) {a} c e = elim (Bool-cases (fits n b)) [
  | inl here ↦
      (let whole = live-absorb (record b { free = false }) bs in
        let rest : Block = record {
          at = b.at + header_size + n;
          size = b.size - n - header_size;
          free = true;
        } in
        let part = live-absorb (record { at = b.at; size = n; free = false }) (rest ∷ bs) in
        (ground arith, ground (arith, whole, part)))
  | inr later ↦
      (let e' : first_fit n bs ≡ some a = rw later at e in
        let place = first_fit-le mem (mem lo).next (lo + header_size + b.size) hi n bs c.5 e' in
        let ih = live-release-alloc mem (mem lo).next (lo + header_size + b.size) hi n bs c.5 e' in
        (ground (arith, ih.0, c.1, place.0), ground (arith, ih.1, c.1, place.0)))
]

live-used : (b : Block) (bs : List Block) → b.free ≡ false → live (b ∷ bs) ≡ b ∷ live bs
unfolding live
live-used b bs used = ground arith

All-weaken : (lo hi : ℕ) (bs : List Block) → Within lo hi bs → All (λ (c : Block). lo ≤ c.at) bs
All-weaken lo hi [] w = tt
All-weaken lo hi (b ∷ bs) w = (w.0.0, All-weaken lo hi bs w.1)

pub live-Within :
    (mem : Memory) (ptr lo hi low : ℕ) (bs : List Block)
    → Chain mem ptr lo hi bs
    → low ≤ lo
    → Within low hi (live bs)
unfolding live
live-Within mem ptr lo hi low [] c le = tt
live-Within mem ptr lo hi low (b ∷ bs) c le =
    let ih =
      live-Within mem (mem lo).next (lo + header_size + b.size) hi low bs c.5 (omega arith) in
    let top = Chain-le mem (mem lo).next (lo + header_size + b.size) hi bs c.5 in
    elim (Bool-cases b.free) [
      | inl free ↦ rw free ih
      | inr used ↦
          (subst (Within low hi) (sym (live-used b bs used))
            ((omega (arith, c.1), omega (arith, c.1)), ih))
    ]

pub live-Apart :
    (mem : Memory) (ptr lo hi : ℕ) (bs : List Block) → Chain mem ptr lo hi bs → Apart (live bs)
unfolding live
live-Apart mem ptr lo hi [] c = tt
live-Apart mem ptr lo hi (b ∷ bs) c =
    let next = lo + header_size + b.size in
    let ih = live-Apart mem (mem lo).next next hi bs c.5 in
    let above = live-Within mem (mem lo).next next hi next bs c.5 (omega arith) in
    elim (Bool-cases b.free) [
      | inl free ↦ rw free ih
      | inr used ↦
          (subst Apart (sym (live-used b bs used))
            (rw c.1 (All-weaken next hi (live bs) above), ih))
    ]
