-- ===== src/Strings/Concat.antt =====
-- Copying and joining strings.
use innovati_os.Base.{
  ℕ, zero, suc, ◌+◌, ◌-◌, ◌≤◌, ◌<◌, ◌≡◌, refl, subst, ◌⊎◌, min, false, some, List, [], ◌∷◌, ◌++◌,
  ltb, if◌then◌else◌, update, arith, length, get_or, take, ℕ_discrete, dec_lt, length-append,
}
use innovati_os.Strings.{Bytes, copy_text, k_strcpy, k_strncpy, k_strncat}
use innovati_os.Strings.Copy.{inside, fill_lem}
use innovati_os.Strings.Text.{
  Holds, Holds-rest, Holds-first, Holds-end, Holds-cons, Holds-same, k_strlen_lem,
}

-- Two ranges of `n` and `k` addresses do not meet.
abbrev pub Apart : ℕ → ℕ → ℕ → ℕ → Type 0
Apart p n q k = (p + n ≤ q) ⊎ (q + k ≤ p)

-- What the code wrote lies in `n` bytes from `p` on.
abbrev pub WritesIn : Bytes → ℕ → ℕ → Bytes → Type 0
WritesIn m p n m' = (a : ℕ) → inside p n a ≡ false → m' a ≡ m a

copy_text_lem :
    (m : Bytes) (dst src left i : ℕ) (s : List ℕ)
    → Holds m (src + i) s
    → Apart (dst + i) left (src + i) (length s + 1)
    → ((copy_text m dst src left i).1 ≡ i + min left (length s))
      × ((a : ℕ)
          → (copy_text m dst src left i).0 a
            ≡ (if inside (dst + i) (min left (length s)) a then m (src + (a - dst)) else m a))
unfolding copy_text
copy_text_lem m dst src zero i s h apart = (omega arith, λ a. ground arith)
copy_text_lem m dst src (suc left) i [] h apart =
    let end = Holds-end m (src + i) h in (ground (arith, end), λ a. ground (arith, end))
copy_text_lem m dst src (suc left) i (c ∷ s) h apart =
    let m' : Bytes = update m (dst + i) (m (src + i)) in
    let first = Holds-first m (src + i) c s h in
    let moved : src + i + 1 ≡ src + (i + 1) = omega arith in
    let rest : Holds m (src + (i + 1)) s =
      subst (λ a. Holds m a s) moved (Holds-rest m (src + i) c s h) in
    let kept : Holds m' (src + (i + 1)) s =
      Holds-same m m' (src + (i + 1)) s rest (λ a lo hi. ground (arith, apart)) in
    let ih = copy_text_lem m' dst src left (i + 1) s kept (omega (arith, apart)) in
    (
      ground (arith, first, ih.0),
      λ a. elim (ℕ_discrete a (dst + i)) [
        | yes here ↦
            (let at : src + (a - dst) ≡ src + i = omega arith in
              ground (arith, first, ih.1 a, at, apart))
        | no other ↦ ground (arith, first, ih.1 a, apart)
      ],
    )

get_or-take : (s : List ℕ) (n k : ℕ) → k < n → get_or (take n s) k 0 ≡ get_or s k 0
get_or-take s zero k lt = absurd (omega arith)
get_or-take [] (suc n) k lt = refl
get_or-take (x ∷ s) (suc n) zero lt = refl
get_or-take (x ∷ s) (suc n) (suc k) lt = get_or-take s n k (omega arith)

get_or_beyond : (s : List ℕ) (k : ℕ) → length s ≤ k → get_or s k 0 ≡ 0
get_or_beyond [] k le = refl
get_or_beyond (x ∷ s) zero le = absurd (omega arith)
get_or_beyond (x ∷ s) (suc k) le = get_or_beyond s k (omega arith)

length-take : (n : ℕ) (s : List ℕ) → length (take n s) ≡ min n (length s)
length-take zero s = omega arith
length-take (suc n) [] = omega arith
length-take (suc n) (x ∷ s) = omega (arith, length-take n s)

pub get_or-append :
    (s t : List ℕ) (k : ℕ)
    → get_or (s ++ t) k 0 ≡ (if ltb k (length s) then get_or s k 0 else get_or t (k - length s) 0)
get_or-append [] t k = ground arith
get_or-append (x ∷ s) t zero = ground arith
get_or-append (x ∷ s) t (suc k) = ground (arith, get_or-append s t k)

-- If the memory holds a string at src that the fuel exceeds in length, and source and destination
-- do not meet, k_strcpy ends with the string at dst and writes nothing but it and its NUL.
pub k_strcpy_lem :
    (fuel : ℕ) (m : Bytes) (dst src : ℕ) (s : List ℕ)
    → Holds m src s
    → length s < fuel
    → Apart dst (length s + 1) src (length s + 1)
    → (m' : Bytes) × (k_strcpy fuel m dst src ≡ some m')
      × Holds m' dst s
      × WritesIn m dst (length s + 1) m'
unfolding k_strcpy
k_strcpy_lem zero m dst src s h enough apart = absurd (omega arith)
k_strcpy_lem (suc fuel) m dst src [] h enough apart =
    let end = Holds-end m src h in
    (
      update m dst (m src),
      ground (arith, end),
      record {
        bytes = λ k lt. absurd (omega arith);
        nonzero = λ k lt. absurd (omega arith);
        end = ground (arith, end);
      },
      λ a out. ground arith,
    )
k_strcpy_lem (suc fuel) m dst src (c ∷ s) h enough apart =
    let m1 : Bytes = update m dst (m src) in
    let first = Holds-first m src c s h in
    let kept : Holds m1 (src + 1) s =
      Holds-same m m1 (src + 1) s (Holds-rest m src c s h) (λ a lo hi. ground (arith, apart)) in
    let (m', run, holds, writes) =
      k_strcpy_lem fuel m1 (dst + 1) (src + 1) s kept (omega arith) (omega (arith, apart)) in
    (
      m',
      ground (arith, first, run),
      Holds-cons m' dst c s (ground (arith, first, writes dst (ground arith))) first.1 holds,
      λ a out. ground (arith, writes a (ground (arith, out)), out),
    )

-- If the memory holds a string at src and the n bytes of the destination do not meet it,
-- k_strncpy leaves there the first n characters, filled up with zeros, and writes nothing else.
pub k_strncpy_lem :
    (m : Bytes) (dst src n : ℕ) (s : List ℕ)
    → Holds m src s
    → Apart dst n src (length s + 1)
    → ((k : ℕ) → k < n → k_strncpy m dst src n (dst + k) ≡ get_or s k 0)
      × WritesIn m dst n (k_strncpy m dst src n)
unfolding k_strncpy
k_strncpy_lem m dst src n s h apart =
    let start : src ≡ src + 0 = omega arith in
    let copied =
      copy_text_lem m dst src n 0 s (subst (λ a. Holds m a s) start h) (omega (arith, apart)) in
    let i : ℕ = (copy_text m dst src n 0).1 in
    let m1 : Bytes = (copy_text m dst src n 0).0 in
    (
      λ k lt. elim (dec_lt k (length s)) [
        | yes text ↦
            (let at : src + (dst + k - dst) ≡ src + k = omega arith in
              ground (
                arith,
                copied.0,
                copied.1 (dst + k),
                fill_lem m1 dst 0 (n - i) i (dst + k),
                at,
                h.bytes k text,
              ))
        | no beyond ↦ ground (
          arith,
          copied.0,
          copied.1 (dst + k),
          fill_lem m1 dst 0 (n - i) i (dst + k),
          get_or_beyond s k (omega arith),
        )
      ],
      λ a out. ground (arith, copied.0, copied.1 a, fill_lem m1 dst 0 (n - i) i a, out),
    )

-- If the memory holds strings at dst and src, the fuel exceeds the first one's length and the
-- bytes that may be written do not meet the source, k_strncat ends, dst then holds its string
-- followed by the first n characters of the other, and the writes lie in the bytes from the old
-- NUL on, one more than the characters copied.
pub k_strncat_lem :
    (fuel : ℕ) (m : Bytes) (dst src n : ℕ) (d s : List ℕ)
    → Holds m dst d
    → Holds m src s
    → length d < fuel
    → Apart dst (length d + n + 1) src (length s + 1)
    → (m' : Bytes) × (k_strncat fuel m dst src n ≡ some m')
      × Holds m' dst (d ++ take n s)
      × WritesIn m (dst + length d) (min n (length s) + 1) m'
unfolding k_strncat
k_strncat_lem fuel m dst src n d s hd hs enough apart =
    let start : src ≡ src + 0 = omega arith in
    let copied =
      copy_text_lem m (dst + length d) src n 0 s (subst (λ a. Holds m a s) start hs)
        (omega (arith, apart)) in
    let i : ℕ = (copy_text m (dst + length d) src n 0).1 in
    let m1 : Bytes = (copy_text m (dst + length d) src n 0).0 in
    let m2 : Bytes = update m1 (dst + length d + i) 0 in
    (
      m2,
      ground (arith, k_strlen_lem fuel m dst d hd enough),
      record {
        bytes = λ k lt. elim (dec_lt k (length d)) [
          | yes old ↦
              ground
                (arith, copied.0, copied.1 (dst + k), hd.bytes k old, get_or-append d (take n s) k)
          | no new ↦
              (let at : src + (dst + k - (dst + length d)) ≡ src + (k - length d) = omega arith in
                let size = length-append d (take n s) in
                let cut = length-take n s in
                let in_s : k - length d < length s = omega (arith, lt, size, cut) in
                let in_n : k - length d < n = omega (arith, lt, size, cut) in
                ground (
                  arith,
                  copied.0,
                  copied.1 (dst + k),
                  at,
                  hs.bytes (k - length d) in_s,
                  get_or-append d (take n s) k,
                  get_or-take s n (k - length d) in_n,
                ))
        ];
        nonzero = λ k lt. elim (dec_lt k (length d)) [
          | yes old ↦ ground (arith, hd.nonzero k old, get_or-append d (take n s) k)
          | no new ↦
              (let size = length-append d (take n s) in
                let cut = length-take n s in
                let in_s : k - length d < length s = omega (arith, lt, size, cut) in
                let in_n : k - length d < n = omega (arith, lt, size, cut) in
                ground (
                  arith,
                  hs.nonzero (k - length d) in_s,
                  get_or-append d (take n s) k,
                  get_or-take s n (k - length d) in_n,
                ))
        ];
        end =
            (let at : dst + length (d ++ take n s) ≡ dst + length d + i =
                omega (arith, copied.0, length-append d (take n s), length-take n s) in
              ground (arith, at));
      },
      λ a out. ground (arith, copied.0, copied.1 a, out),
    )
