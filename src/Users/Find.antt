-- ===== src/Users/Find.antt =====
-- Searching the table, and counting the slots in use.
use innovati_os.Base.{
  ℕ, zero, suc, ◌+◌, ◌≤◌, ◌<◌, ◌≡◌, refl, true, false, [], ◌∷◌, if◌then◌else◌, update, arith,
  ℕ_discrete,
}
use innovati_os.Strings.{diff}
use innovati_os.Strings.Compare.{text_order, text_order_same}
use innovati_os.Vfs.{Str, same_text}
use innovati_os.Users.{User}

-- The slots in use below `n`.
unfoldable pub count_used : (ℕ → User) → ℕ → ℕ
count_used us zero = 0
count_used us (suc n) = (if (us n).used then 1 else 0) + count_used us n

pub count_used_le : (us : ℕ → User) (n : ℕ) → count_used us n ≤ n
unfolding count_used
count_used_le us zero = omega arith
count_used_le us (suc n) = ground (arith, count_used_le us n)

-- If all of them are in use they are `n`.
pub count_used_full :
    (us : ℕ → User) (n : ℕ) → ((j : ℕ) → j < n → (us j).used ≡ true) → count_used us n ≡ n
unfolding count_used
count_used_full us zero all = refl
count_used_full us (suc n) all =
    ground (arith, all n (omega arith), count_used_full us n (λ j lt. all j (omega arith)))

count_used_above :
    (us : ℕ → User) (i : ℕ) (u : User) (n : ℕ)
    → n ≤ i
    → count_used (update us i u) n ≡ count_used us n
unfolding count_used
count_used_above us i u zero le = refl
count_used_above us i u (suc n) le = ground (arith, count_used_above us i u n (omega arith))

pub count_used-update :
    (us : ℕ → User) (i : ℕ) (u : User) (n : ℕ)
    → i < n
    → (us i).used ≡ false
    → u.used ≡ true
    → count_used (update us i u) n ≡ count_used us n + 1
unfolding count_used
count_used-update us i u zero lt old new = absurd (omega arith)
count_used-update us i u (suc n) lt old new = elim (ℕ_discrete i n) [
  | yes same ↦ ground (arith, same, old, new, count_used_above us i u n (omega arith))
  | no other ↦ ground (arith, count_used-update us i u n (omega arith) old new)
]

pub same_text_refl : (s : Str) → same_text s s ≡ true
unfolding same_text
same_text_refl s = ground (arith, text_order_same s)

pub same_text_sym : (s t : Str) → same_text s t ≡ same_text t s
unfolding same_text text_order diff
same_text_sym [] [] = refl
same_text_sym [] (y ∷ t) = ground arith
same_text_sym (x ∷ s) [] = ground arith
same_text_sym (x ∷ s) (y ∷ t) = elim (ℕ_discrete x y) [
  | yes same ↦ ground (arith, same_text_sym s t)
  | no other ↦ ground arith
]
