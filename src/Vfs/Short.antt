-- ===== src/Vfs/Short.antt =====
-- The walks of names of few components.
use innovati_os.Base.{
  ℕ, zero, suc, ◌+◌, ◌≤◌, ◌<◌, ◌≡◌, ◌≢◌, refl, sym, ap, ◌∙◌, subst, true, false, Bool-cases, inl,
  inr, ◌⊎◌, some, List, [], ◌∷◌, ◌++◌, ◌==◌, arith, length, get_or, length-append, All,
}
use innovati_os.Vfs.{Str, slash, dot, dot_dot, buffer_size, stack_size, same_text, resolve_path}
use innovati_os.Vfs.Split.{pieces, nonempty, components}
use innovati_os.Vfs.Canonical.{IsPart, IsPlain, IsStack, render, components-IsPart}
use innovati_os.Vfs.Resolve.{base}
use innovati_os.Vfs.Walks.{Walks, at_end, stay, at_root, up, down, resolve_path_lem}
use innovati_os.Strings.{ℤ}
use innovati_os.Strings.Compare.{text_order, text_order_zero}

-- No character is the NUL that ends a C string.
unfoldable HasNoNul : Str → Type 0
HasNoNul s = All (λ c. (c == 0) ≡ false) s

pieces-HasNoNul : (s : Str) → HasNoNul s → HasNoNul (pieces s).0 × All HasNoNul (pieces s).1
unfolding pieces HasNoNul
pieces-HasNoNul [] h = (tt, tt)
pieces-HasNoNul (c ∷ s) h =
    let ih = pieces-HasNoNul s h.1 in
    elim (Bool-cases (c == slash)) [ inl e ↦ rw e (tt, ih) | inr e ↦ rw e ((h.0, ih.0), ih.1) ]

nonempty-HasNoNul : (ss : List Str) → All HasNoNul ss → All HasNoNul (nonempty ss)
unfolding nonempty
nonempty-HasNoNul [] a = tt
nonempty-HasNoNul ([] ∷ ss) a = nonempty-HasNoNul ss a.1
nonempty-HasNoNul ((c ∷ s) ∷ ss) a = (a.0, nonempty-HasNoNul ss a.1)

components-HasNoNul : (s : Str) → HasNoNul s → All HasNoNul (components s)
unfolding components
components-HasNoNul s h = nonempty-HasNoNul ((pieces s).0 ∷ (pieces s).1) (pieces-HasNoNul s h)

nonzero_at : (s : Str) → HasNoNul s → (k : ℕ) → k < length s → get_or s k 0 ≢ 0
unfolding HasNoNul
nonzero_at [] h k lt = absurd (omega arith)
nonzero_at (c ∷ s) h zero lt = ground (arith, h.0)
nonzero_at (c ∷ s) h (suc k) lt = nonzero_at s h.1 k (omega arith)

same_text_lem : (s t : Str) → HasNoNul s → HasNoNul t → same_text s t ≡ true → s ≡ t
unfolding same_text
same_text_lem s t hs ht e =
    text_order_zero s t (nonzero_at s hs) (nonzero_at t ht) (zero_order (text_order s t) e)
  where
    zero_order : (z : ℤ) → elim z [ ℤ.pos n ↦ n == 0 | ℤ.negsuc n ↦ false ] ≡ true → z ≡ ℤ.pos 0
    zero_order (ℤ.pos n) e = ap ℤ.pos (ground (arith, e))
    zero_order (ℤ.negsuc n) e = ground (arith, e)

dots-HasNoNul : HasNoNul dot × HasNoNul dot_dot
unfolding HasNoNul
dots-HasNoNul = ((refl, tt), (refl, (refl, tt)))

split_last :
    (at : List Str) → (at ≡ []) ⊎ ((parent : List Str) × (x : Str) × (at ≡ parent ++ (x ∷ [])))
split_last [] = inl refl
split_last (y ∷ at) = elim (split_last at) [
  | inl e ↦ inr ([], y, ap (λ t. y ∷ t) e)
  | inr (parent, x, e) ↦ inr (y ∷ parent, x, ap (λ t. y ∷ t) e)
]

-- From a directory that is deep enough below the limit, there is a way through the components.
way :
    (at xs : List Str)
    → All IsPart xs
    → All HasNoNul xs
    → length at + length xs ≤ stack_size
    → (out : List Str) × Walks at xs out
way at [] parts texts small = (at, at_end)
way at (x ∷ xs) parts texts small = elim (Bool-cases (same_text x dot)) [
  | inl e ↦
      (let (out, w) = way at xs parts.1 texts.1 (omega arith) in
        let same : x ≡ dot = same_text_lem x dot texts.0 dots-HasNoNul.0 e in
        (out, subst (λ y. Walks at (y ∷ xs) out) (sym same) (stay w)))
  | inr e ↦ elim (Bool-cases (same_text x dot_dot)) [
    | inl f ↦
        (let same : x ≡ dot_dot = same_text_lem x dot_dot texts.0 dots-HasNoNul.1 f in
          elim (split_last at) [
            | inl root ↦
                (let (out, w) = way [] xs parts.1 texts.1 (omega arith) in
                  (
                    out,
                    subst (λ y. Walks at (y ∷ xs) out) (sym same)
                        (subst (λ d. Walks d (dot_dot ∷ xs) out) (sym root) (at_root w)),
                  ))
            | inr (parent, y, above) ↦
                (let shorter : length at ≡ length parent + 1 =
                    ap length above ∙ length-append parent (y ∷ []) in
                  let (out, w) = way parent xs parts.1 texts.1 (omega (arith, shorter)) in
                  (out, subst (λ z. Walks at (z ∷ xs) out) (sym same) (up parent y above w)))
          ])
    | inr f ↦
        (let (out, w) =
            way (at ++ (x ∷ [])) xs parts.1 texts.1 (omega (arith, length-append at (x ∷ []))) in
          let plain : IsPlain x = record { part = parts.0; not_dot = e; not_dot_dot = f } in
          (out, down x plain (omega arith) w))
  ]
]

-- If the current directory and the name fit into the buffer, the name is a C string, and the
-- components to start from and those of the name are together at most 32, there is a directory that
-- the walk ends in, and resolve_path gives its canonical path.
resolve_path-short :
    (cs : List Str) (name : Str)
    → IsStack cs
    → HasNoNul name
    → length (render cs) + 1 + length name < buffer_size
    → length (base cs name) + length (components name) ≤ stack_size
    → (ds : List Str) × Walks (base cs name) (components name) ds
      × (resolve_path (render cs) name ≡ some (render ds))
      × IsStack ds
resolve_path-short cs name v text small short =
    let (ds, walk) =
      way (base cs name) (components name) (components-IsPart name) (components-HasNoNul name text)
        short in
    let (run, stack) = resolve_path_lem cs ds name v small walk in (ds, walk, run, stack)
