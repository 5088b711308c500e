-- ===== src/Base/Search.antt =====
-- Searching an array for the first item that passes a test.
use Prim.Native.Nat.{ℕ, zero, suc, ◌+◌, ◌≤◌, ◌<◌}
use mathlib.Core.Path.{◌≡◌, refl, ap, ◌∙◌}
use mathlib.Core.Logic.{◌⊎◌, ◌≢◌, inl, inr}
use mathlib.Core.Bool.{Bool, true, false}
use mathlib.Core.Option.{Option, none, some}
use native.Mathlib.Omega.{arith}
use native.Mathlib.Decide.{ℕ_discrete}
use innovati_os.Base.Tests.{if◌then◌else◌, Bool-cases}

-- A loop over the slots that ends at the first one that passes the test, with `left` slots to go.
unfoldable pub find_slot {ℓ} : {A : Type ℓ} → (A → Bool) → (ℕ → A) → ℕ → ℕ → Option ℕ
find_slot test users zero i = none
find_slot test users (suc left) i =
    if test (users i) then some i else find_slot test users left (i + 1)

-- The slot is the first one from `i` on that passes the test.
pub record IsFirst {ℓ} {A : Type ℓ} (test : A → Bool) (us : ℕ → A) (left i k : ℕ) : Type 0 where
  pub above : i ≤ k
  pub within : k < i + left
  pub passes : test (us k) ≡ true
  pub first : (j : ℕ) → i ≤ j → j < k → test (us j) ≡ false

pub find_slot_lem {ℓ} :
    {A : Type ℓ} (test : A → Bool) (us : ℕ → A) (left i : ℕ)
    → ((find_slot test us left i ≡ none) × ((j : ℕ) → i ≤ j → j < i + left → test (us j) ≡ false))
      ⊎ ((k : ℕ) × (find_slot test us left i ≡ some k) × IsFirst test us left i k)
unfolding find_slot
find_slot_lem test us zero i = inl (refl, λ j lo hi. absurd (omega arith))
find_slot_lem test us (suc left) i = elim (Bool-cases (test (us i))) [
  | inl e ↦ inr (
    i,
    ground (arith, e),
    record {
      above = omega arith;
      within = omega arith;
      passes = e;
      first = λ j lo hi. absurd (omega arith);
    },
  )
  | inr e ↦ elim (find_slot_lem test us left (i + 1)) [
    | inl h ↦ inl (
      ground (arith, e, h.0),
      λ j lo hi. elim (ℕ_discrete j i) [
        | yes same ↦ ap (λ x. test (us x)) same ∙ e
        | no other ↦ h.1 j (omega arith) (omega arith)
      ],
    )
    | inr (k, run, f) ↦ inr (
      k,
      ground (arith, e, run),
      record {
        above = omega (arith, f.above);
        within = omega (arith, f.within);
        passes = f.passes;
        first = λ j lo hi. elim (ℕ_discrete j i) [
          | yes same ↦ ap (λ x. test (us x)) same ∙ e
          | no other ↦ f.first j (omega arith) hi
        ];
      },
    )
  ]
]

-- A search that only slot `i` passes finds it.
pub find_only {ℓ} :
    {A : Type ℓ} (test : A → Bool) (us : ℕ → A) (n i : ℕ)
    → i < n
    → test (us i) ≡ true
    → ((j : ℕ) → j < n → j ≢ i → test (us j) ≡ false)
    → find_slot test us n 0 ≡ some i
find_only test us n i lt pass only = elim (find_slot_lem test us n 0) [
  | inl h ↦ absurd (ground (arith, pass, h.1 i))
  | inr (k, run, f) ↦ elim (ℕ_discrete k i) [
    | yes same ↦ run ∙ ap (λ x. some x) same
    | no other ↦ absurd (ground (arith, f.passes, only k (omega (arith, f.within))))
  ]
]

-- A search that no slot passes ends without one.
pub find_none {ℓ} :
    {A : Type ℓ} (test : A → Bool) (us : ℕ → A) (n : ℕ)
    → ((j : ℕ) → j < n → test (us j) ≡ false)
    → find_slot test us n 0 ≡ none
find_none test us n fails = elim (find_slot_lem test us n 0) [
  | inl h ↦ h.0
  | inr (k, run, f) ↦ absurd (ground (arith, f.passes, fails k (omega (arith, f.within))))
]

-- Two searches whose tests agree at every slot end alike.
pub find_slot_same {ℓ κ} :
    {A : Type ℓ} {B : Type κ} (test : A → Bool) (test' : B → Bool) (us : ℕ → A) (vs : ℕ → B)
    (left i : ℕ)
    → ((j : ℕ) → i ≤ j → j < i + left → test (us j) ≡ test' (vs j))
    → find_slot test us left i ≡ find_slot test' vs left i
unfolding find_slot
find_slot_same test test' us vs zero i same = refl
find_slot_same test test' us vs (suc left) i same =
    let here = same i (omega arith) (omega arith) in
    let rest =
      find_slot_same test test' us vs left (i + 1)
        (λ j lo hi. same j (omega arith) (omega arith)) in
    ground (arith, here, rest)
