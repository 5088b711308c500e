-- ===== src/Strings/Compare.antt =====
-- Comparing strings.
use innovati_os.Base.{
  ℕ, zero, suc, ◌+◌, ◌<◌, ◌≡◌, ◌≢◌, refl, ◌↔◌, some, List, [], ◌∷◌, ◌==◌, if◌then◌else◌, arith,
  length, get_or, take, ℕ_discrete,
}
use innovati_os.Strings.{Bytes, ℤ, diff, k_strcmp, k_strncmp}
use innovati_os.Strings.Text.{Holds, Holds-rest, Holds-first, Holds-end}

-- The difference at the first place where the strings differ; the end counts as a 0.
unfoldable pub text_order : List ℕ → List ℕ → ℤ
text_order [] [] = ℤ.pos 0
text_order [] (y ∷ t) = diff 0 y
text_order (x ∷ s) [] = diff x 0
text_order (x ∷ s) (y ∷ t) = if x == y then text_order s t else diff x y

diff_zero : (x y : ℕ) → diff x y ≡ ℤ.pos 0 → x ≡ y
unfolding diff
diff_zero x y e = ground arith

diff_same : (x : ℕ) → diff x x ≡ ℤ.pos 0
unfolding diff
diff_same x = ground arith

pub text_order_same : (s : List ℕ) → text_order s s ≡ ℤ.pos 0
unfolding text_order
text_order_same [] = refl
text_order_same (x ∷ s) = ground (arith, text_order_same s)

abbrev pub HasNoNul : List ℕ → Type 0
HasNoNul s = (k : ℕ) → k < length s → get_or s k 0 ≢ 0

pub text_order_zero : (s t : List ℕ) → HasNoNul s → HasNoNul t → text_order s t ≡ ℤ.pos 0 → s ≡ t
unfolding text_order
text_order_zero [] [] hs ht e = refl
text_order_zero [] (y ∷ t) hs ht e = absurd (ht 0 (omega arith) (ground (arith, diff_zero 0 y e)))
text_order_zero (x ∷ s) [] hs ht e = absurd (hs 0 (omega arith) (diff_zero x 0 e))
text_order_zero (x ∷ s) (y ∷ t) hs ht e = elim (ℕ_discrete x y) [
  | yes same ↦
      (let ih =
          text_order_zero s t (λ k lt. hs (suc k) (omega arith)) (λ k lt. ht (suc k) (omega arith))
            (ground arith) in
        ground (arith, ih))
  | no other ↦ absurd (other (diff_zero x y (ground arith)))
]

k_strcmp-text_order :
    (fuel : ℕ) (m : Bytes) (a b : ℕ) (s t : List ℕ)
    → Holds m a s
    → Holds m b t
    → length s < fuel
    → k_strcmp fuel m a b ≡ some (text_order s t)
unfolding k_strcmp text_order
k_strcmp-text_order zero m a b s t hs ht enough = absurd (omega arith)
k_strcmp-text_order (suc fuel) m a b [] [] hs ht enough =
    ground (arith, Holds-end m a hs, Holds-end m b ht, diff_same 0)
k_strcmp-text_order (suc fuel) m a b [] (y ∷ t) hs ht enough =
    ground (arith, Holds-end m a hs, Holds-first m b y t ht)
k_strcmp-text_order (suc fuel) m a b (x ∷ s) [] hs ht enough =
    ground (arith, Holds-first m a x s hs, Holds-end m b ht)
k_strcmp-text_order (suc fuel) m a b (x ∷ s) (y ∷ t) hs ht enough = ground (
  arith,
  Holds-first m a x s hs,
  Holds-first m b y t ht,
  k_strcmp-text_order fuel m (a + 1) (b + 1) s t (Holds-rest m a x s hs) (Holds-rest m b y t ht)
      (omega arith),
)

-- For two strings in memory and fuel beyond the first one's length, k_strcmp ends with the
-- difference at the first place where they differ, which is 0 exactly if they are equal.
pub k_strcmp_lem :
    (fuel : ℕ) (m : Bytes) (a b : ℕ) (s t : List ℕ)
    → Holds m a s
    → Holds m b t
    → length s < fuel
    → (k_strcmp fuel m a b ≡ some (text_order s t)) × ((text_order s t ≡ ℤ.pos 0) ↔ (s ≡ t))
k_strcmp_lem fuel m a b s t hs ht enough = (
  k_strcmp-text_order fuel m a b s t hs ht enough,
  (text_order_zero s t hs.nonzero ht.nonzero, λ e. rw e (text_order_same t)),
)

-- For two strings in memory, k_strncmp gives the result of comparing their first n characters.
pub k_strncmp_lem :
    (m : Bytes) (a b : ℕ) (s t : List ℕ) (n : ℕ)
    → Holds m a s
    → Holds m b t
    → k_strncmp m a b n ≡ text_order (take n s) (take n t)
unfolding k_strncmp text_order
k_strncmp_lem m a b s t zero hs ht = refl
k_strncmp_lem m a b [] [] (suc n) hs ht = ground (arith, Holds-end m a hs, Holds-end m b ht)
k_strncmp_lem m a b [] (y ∷ t) (suc n) hs ht =
    ground (arith, Holds-end m a hs, Holds-first m b y t ht)
k_strncmp_lem m a b (x ∷ s) [] (suc n) hs ht =
    ground (arith, Holds-first m a x s hs, Holds-end m b ht)
k_strncmp_lem m a b (x ∷ s) (y ∷ t) (suc n) hs ht = ground (
  arith,
  Holds-first m a x s hs,
  Holds-first m b y t ht,
  k_strncmp_lem m (a + 1) (b + 1) s t n (Holds-rest m a x s hs) (Holds-rest m b y t ht),
)
