-- ===== src/Strings/Text.antt =====
-- When the memory holds a string, and its length.
use innovati_os.Base.{
  ℕ, zero, suc, ◌+◌, ◌≤◌, ◌<◌, ◌≡◌, ◌≢◌, subst, ◌∙◌, some, List, [], ◌∷◌, arith, length, get_or,
}
use innovati_os.Strings.{Bytes, len_from, k_strlen}

-- The bytes from `p` on are those of `s`, none of them a NUL, and then a NUL.
pub record Holds (m : Bytes) (p : ℕ) (s : List ℕ) : Type 0 where
  pub bytes : (k : ℕ) → k < length s → m (p + k) ≡ get_or s k 0
  pub nonzero : (k : ℕ) → k < length s → get_or s k 0 ≢ 0
  pub end : m (p + length s) ≡ 0

pub Holds-rest : (m : Bytes) (p c : ℕ) (s : List ℕ) → Holds m p (c ∷ s) → Holds m (p + 1) s
Holds-rest m p c s h = record {
  bytes = λ k lt. subst (λ a. m a ≡ get_or s k 0) (omega arith) (h.bytes (suc k) (omega arith));
  nonzero = λ k lt. h.nonzero (suc k) (omega arith);
  end = subst (λ a. m a ≡ 0) (omega arith) h.end;
}

pub Holds-first : (m : Bytes) (p c : ℕ) (s : List ℕ) → Holds m p (c ∷ s) → (m p ≡ c) × (c ≢ 0)
Holds-first m p c s h =
    (subst (λ a. m a ≡ c) (omega arith) (h.bytes 0 (omega arith)), h.nonzero 0 (omega arith))

pub Holds-cons :
    (m : Bytes) (p c : ℕ) (s : List ℕ) → m p ≡ c → c ≢ 0 → Holds m (p + 1) s → Holds m p (c ∷ s)
Holds-cons m p c s e ne h = record {
  bytes = bytes;
  nonzero = nonzero;
  end = subst (λ a. m a ≡ 0) (omega arith) h.end;
}
  where
    bytes : (k : ℕ) → k < length (c ∷ s) → m (p + k) ≡ get_or (c ∷ s) k 0
    bytes zero lt = subst (λ a. m a ≡ c) (omega arith) e
    bytes (suc k) lt = subst (λ a. m a ≡ get_or s k 0) (omega arith) (h.bytes k (omega arith))

    nonzero : (k : ℕ) → k < length (c ∷ s) → get_or (c ∷ s) k 0 ≢ 0
    nonzero zero lt = ne
    nonzero (suc k) lt = h.nonzero k (omega arith)

pub Holds-end : (m : Bytes) (p : ℕ) → Holds m p [] → m p ≡ 0
Holds-end m p h = subst (λ a. m a ≡ 0) (omega arith) h.end

-- A memory that agrees on the string and its NUL holds it as well.
pub Holds-same :
    (m m' : Bytes) (p : ℕ) (s : List ℕ)
    → Holds m p s
    → ((a : ℕ) → p ≤ a → a ≤ p + length s → m' a ≡ m a)
    → Holds m' p s
Holds-same m m' p s h same = record {
  bytes = λ k lt. same (p + k) (omega arith) (omega arith) ∙ h.bytes k lt;
  nonzero = h.nonzero;
  end = same (p + length s) (omega arith) (omega arith) ∙ h.end;
}

len_from_lem :
    (fuel : ℕ) (m : Bytes) (p len : ℕ) (s : List ℕ)
    → Holds m (p + len) s
    → length s < fuel
    → len_from fuel m p len ≡ some (len + length s)
unfolding len_from
len_from_lem zero m p len s h enough = absurd (omega arith)
len_from_lem (suc fuel) m p len [] h enough = ground (arith, Holds-end m (p + len) h)
len_from_lem (suc fuel) m p len (c ∷ s) h enough =
    let moved : p + len + 1 ≡ p + (len + 1) = omega arith in
    let rest : Holds m (p + (len + 1)) s =
      subst (λ a. Holds m a s) moved (Holds-rest m (p + len) c s h) in
    ground
      (arith, Holds-first m (p + len) c s h, len_from_lem fuel m p (len + 1) s rest (omega arith))

pub k_strlen_lem :
    (fuel : ℕ) (m : Bytes) (p : ℕ) (s : List ℕ)
    → Holds m p s
    → length s < fuel
    → k_strlen fuel m p ≡ some (length s)
unfolding k_strlen
k_strlen_lem fuel m p s h enough =
    let start : p ≡ p + 0 = omega arith in
    ground (arith, len_from_lem fuel m p 0 s (subst (λ a. Holds m a s) start h) enough)

pub Holds-nil : (m : Bytes) (p : ℕ) → m p ≡ 0 → Holds m p []
Holds-nil m p e = record {
  bytes = λ k lt. absurd (omega arith);
  nonzero = λ k lt. absurd (omega arith);
  end = subst (λ a. m a ≡ 0) (omega arith) e;
}
