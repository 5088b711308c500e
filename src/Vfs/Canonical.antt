-- ===== src/Vfs/Canonical.antt =====
-- Canonical paths: their components are neither empty nor "." nor "..", and there are at most 32.
use innovati_os.Base.{
  ◌≤◌, ◌<◌, ◌≡◌, false, Bool-cases, inl, inr, List, [], ◌∷◌, ◌++◌, ◌==◌, ltb, arith, length,
  length-append, All,
}
use innovati_os.Vfs.{Str, slash, dot, dot_dot, stack_size, same_text, drop_last, enter}
use innovati_os.Vfs.Split.{pieces, nonempty, components, enter_all}

abbrev pub HasNoSlash : Str → Type 0
HasNoSlash s = All (λ c. (c == slash) ≡ false) s

-- What stands between two slashes.
abbrev pub IsPart : Str → Type 0
IsPart s = (0 < length s) × HasNoSlash s

pub record IsPlain (s : Str) : Type 0 where
  pub part : IsPart s
  pub not_dot : same_text s dot ≡ false
  pub not_dot_dot : same_text s dot_dot ≡ false

pub record IsStack (cs : List Str) : Type 0 where
  pub plain : All IsPlain cs
  pub small : length cs ≤ stack_size

-- Each component behind its slash.
unfoldable pub path_text : List Str → Str
path_text [] = []
path_text (c ∷ cs) = slash ∷ (c ++ path_text cs)

-- The canonical path with these components.
unfoldable pub render : List Str → Str
render [] = slash ∷ []
render (c ∷ cs) = path_text (c ∷ cs)

All-append : (P : Str → Type 0) (xs : List Str) (x : Str) → All P xs → P x → All P (xs ++ (x ∷ []))
All-append P [] x a p = (p, tt)
All-append P (y ∷ xs) x a p = (a.0, All-append P xs x a.1 p)

All-drop_last : (P : Str → Type 0) (xs : List Str) → All P xs → All P (drop_last xs)
unfolding drop_last
All-drop_last P [] a = tt
All-drop_last P (x ∷ []) a = tt
All-drop_last P (x ∷ y ∷ xs) a = (a.0, All-drop_last P (y ∷ xs) a.1)

length-drop_last : (xs : List Str) → length (drop_last xs) ≤ length xs
unfolding drop_last
length-drop_last [] = omega arith
length-drop_last (x ∷ []) = omega arith
length-drop_last (x ∷ y ∷ xs) = omega (arith, length-drop_last (y ∷ xs))

enter-IsStack : (st : List Str) (c : Str) → IsStack st → IsPart c → IsStack (enter st c)
unfolding enter
enter-IsStack st c v part = elim (Bool-cases (same_text c dot)) [
  | inl e ↦ rw e v
  | inr e ↦ elim (Bool-cases (same_text c dot_dot)) [
    | inl f ↦
        rw (e, f)
          (record {
            plain = All-drop_last IsPlain st v.plain;
            small = omega (arith, length-drop_last st, v.small);
          })
    | inr f ↦ elim (Bool-cases (ltb (length st) stack_size)) [
      | inl g ↦
          rw (e, f, g)
            (record {
              plain =
                  All-append IsPlain st c v.plain
                    (record { part = part; not_dot = e; not_dot_dot = f });
              small = ground (arith, length-append st (c ∷ []), g);
            })
      | inr g ↦ rw (e, f, g) v
    ]
  ]
]

pub enter_all-IsStack : (xs st : List Str) → IsStack st → All IsPart xs → IsStack (enter_all st xs)
unfolding enter_all
enter_all-IsStack [] st v parts = v
enter_all-IsStack (x ∷ xs) st v parts =
    enter_all-IsStack xs (enter st x) (enter-IsStack st x v parts.0) parts.1

pieces-HasNoSlash : (s : Str) → HasNoSlash (pieces s).0 × All HasNoSlash (pieces s).1
unfolding pieces
pieces-HasNoSlash [] = (tt, tt)
pieces-HasNoSlash (c ∷ s) =
    let ih = pieces-HasNoSlash s in
    elim (Bool-cases (c == slash)) [ inl e ↦ rw e (tt, ih) | inr e ↦ rw e ((e, ih.0), ih.1) ]

nonempty-IsPart : (ss : List Str) → All HasNoSlash ss → All IsPart (nonempty ss)
unfolding nonempty
nonempty-IsPart [] a = tt
nonempty-IsPart ([] ∷ ss) a = nonempty-IsPart ss a.1
nonempty-IsPart ((c ∷ s) ∷ ss) a = ((omega arith, a.0), nonempty-IsPart ss a.1)

pub components-IsPart : (s : Str) → All IsPart (components s)
unfolding components
components-IsPart s = nonempty-IsPart ((pieces s).0 ∷ (pieces s).1) (pieces-HasNoSlash s)
