-- ===== src/Ring/Contents.antt =====
-- A ring is a queue of at most 255 bytes.
use innovati_os.Base.{
  ℕ, zero, suc, ◌+◌, ◌-◌, ◌%◌, ◌<◌, ◌≡◌, ◌≢◌, refl, ap, ◌⊎◌, inl, inr, Bool, true, false, none,
  some, List, [], ◌∷◌, ◌++◌, ◌==◌, if◌then◌else◌, update, arith, length, ℕ_discrete,
}
use mathlib.Core.Path.{ap₂}
use innovati_os.Ring.{Ring, ring_size, push, pop}

pub record IsRing (r : Ring) : Type 0 where
  pub head_in : r.head < ring_size
  pub tail_in : r.tail < ring_size

-- The `n` slots from `i` on, going round.
abbrev window : (ℕ → ℕ) → ℕ → ℕ → List ℕ
window buf i zero = []
window buf i (suc n) = buf i ∷ window buf ((i + 1) % ring_size) n

abbrev pub count : Ring → ℕ
count r = (r.head + ring_size - r.tail) % ring_size

-- What is queued, the oldest first.
unfoldable pub contents : Ring → List ℕ
contents r = window r.buf r.tail (count r)

abbrev pub is_full : Ring → Bool
is_full r = count r == ring_size - 1

length-window : (buf : ℕ → ℕ) (i n : ℕ) → length (window buf i n) ≡ n
length-window buf i zero = refl
length-window buf i (suc n) = ap suc (length-window buf ((i + 1) % ring_size) n)

pub length-contents : (r : Ring) → length (contents r) ≡ count r
unfolding contents
length-contents r = length-window r.buf r.tail (count r)

-- Writing the slot behind a window that does not go all the way round makes it longer by one.
window-update :
    (buf : ℕ → ℕ) (x n i h : ℕ)
    → i < ring_size
    → n < ring_size
    → h ≡ (i + n) % ring_size
    → window (update buf h x) i (suc n) ≡ window buf i n ++ (x ∷ [])
window-update buf x zero i h lt small e = ground arith
window-update buf x (suc n) i h lt small e =
    ap₂ ◌∷◌ (ground arith)
      (window-update buf x n ((i + 1) % ring_size) h (omega arith) (omega arith) (omega arith))

window-suc :
    (buf : ℕ → ℕ) (i n : ℕ)
    → n ≢ 0
    → window buf i n ≡ buf i ∷ window buf ((i + 1) % ring_size) (n - 1)
window-suc buf i zero ne = absurd (ne refl)
window-suc buf i (suc n) ne = ap (λ k. window buf i (suc k)) (omega arith)

pub push-IsRing : (r : Ring) (x : ℕ) → IsRing r → IsRing (push r x).0
unfolding push
push-IsRing r x v = ground arith

pub pop-IsRing : (r : Ring) → IsRing r → IsRing (pop r).0
unfolding pop
pop-IsRing r v = ground arith

-- `push` appends the byte, unless 255 are queued already.
pub push_lem :
    (r : Ring) (x : ℕ)
    → IsRing r
    → (contents (push r x).0 ≡ (if is_full r then contents r else contents r ++ (x ∷ [])))
      × ((push r x).1 ≡ (if is_full r then false else true))
unfolding push contents
push_lem r x v = elim (ℕ_discrete ((r.head + 1) % ring_size) r.tail) [
  | yes full ↦ (ground arith, ground arith)
  | no room ↦
      (let longer : ((r.head + 1) % ring_size + ring_size - r.tail) % ring_size ≡ suc (count r) =
          omega arith in
        let added =
          window-update r.buf x (count r) r.tail r.head v.tail_in (omega arith) (omega arith) in
        (ground (arith, longer, added), ground arith))
]

-- `pop` takes the oldest byte.
pub pop_lem :
    (r : Ring)
    → IsRing r
    → ((pop r).1 ≡ none) × (contents r ≡ []) × (contents (pop r).0 ≡ [])
      ⊎ ((x : ℕ) × ((pop r).1 ≡ some x) × (contents r ≡ x ∷ contents (pop r).0))
unfolding pop contents
pop_lem r v = elim (ℕ_discrete r.head r.tail) [
  | yes same ↦ inl (ground arith, ground arith, ground arith)
  | no more ↦
      (let shorter : (r.head + ring_size - (r.tail + 1) % ring_size) % ring_size ≡ count r - 1 =
          omega arith in
        let first = window-suc r.buf r.tail (count r) (omega arith) in
        inr (r.buf r.tail, ground arith, ground (arith, shorter, first)))
]
