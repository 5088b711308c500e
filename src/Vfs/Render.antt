-- ===== src/Vfs/Render.antt =====
-- The lengths of paths, and that the components of a canonical path are the ones it was made of.
use innovati_os.Base.{
  ℕ, zero, suc, ◌+◌, ◌≤◌, ◌<◌, ◌≡◌, refl, sym, ap, ◌∙◌, Bool-cases, inl, inr, some, List, [], ◌∷◌,
  ◌++◌, ◌==◌, ltb, arith, length, length-append, take, All,
}
use mathlib.Core.Path.{ap₂}
use mathlib.Core.List.{append_assoc, append-nil}
use innovati_os.Vfs.{
  Str, slash, dot, dot_dot, buffer_size, stack_size, fit, append, same_text, drop_last, enter,
  write_stack,
}
use innovati_os.Vfs.Split.{pieces, nonempty, components, enter_all}
use innovati_os.Vfs.Canonical.{HasNoSlash, IsPart, path_text}

pub path_text-append : (xs ys : List Str) → path_text (xs ++ ys) ≡ path_text xs ++ path_text ys
unfolding path_text
path_text-append [] ys = refl
path_text-append (x ∷ xs) ys =
    ap (λ t. slash ∷ (x ++ t)) (path_text-append xs ys)
    ∙ ap (λ t. slash ∷ t) (sym (append_assoc x (path_text xs) (path_text ys)))

abbrev pub size : List Str → ℕ
size cs = length (path_text cs)

size-cons : (c : Str) (cs : List Str) → size (c ∷ cs) ≡ 1 + length c + size cs
unfolding path_text
size-cons c cs = omega (arith, length-append c (path_text cs))

size-append : (xs ys : List Str) → size (xs ++ ys) ≡ size xs + size ys
size-append xs ys = ap length (path_text-append xs ys) ∙ length-append (path_text xs) (path_text ys)

size-drop_last : (xs : List Str) → size (drop_last xs) ≤ size xs
unfolding drop_last
size-drop_last [] = omega arith
size-drop_last (x ∷ []) = ground (arith, size-cons x [])
size-drop_last (x ∷ y ∷ xs) =
    omega (arith, size-drop_last (y ∷ xs), size-cons x (y ∷ xs), size-cons x (drop_last (y ∷ xs)))

size-enter : (st : List Str) (c : Str) → size (enter st c) ≤ size st + size (c ∷ [])
unfolding enter
size-enter st c = elim (Bool-cases (same_text c dot)) [
  | inl e ↦ rw e (omega arith)
  | inr e ↦ elim (Bool-cases (same_text c dot_dot)) [
    | inl f ↦ rw (e, f) (omega (arith, size-drop_last st))
    | inr f ↦ elim (Bool-cases (ltb (length st) stack_size)) [
      | inl g ↦ rw (e, f, g) (omega (arith, size-append st (c ∷ [])))
      | inr g ↦ rw (e, f, g) (omega arith)
    ]
  ]
]

pub size-enter_all : (xs st : List Str) → size (enter_all st xs) ≤ size st + size xs
unfolding enter_all path_text
size-enter_all [] st = omega arith
size-enter_all (x ∷ xs) st =
    omega (arith, size-enter_all xs (enter st x), size-enter st x, size-cons x xs, size-cons x [])

size-pieces : (s : Str) → size ((pieces s).0 ∷ (pieces s).1) ≡ length s + 1
unfolding pieces path_text
size-pieces [] = omega arith
size-pieces (c ∷ s) =
    let ih = size-pieces s in
    let h = (pieces s).0 in
    let t = (pieces s).1 in
    elim (Bool-cases (c == slash)) [
      | inl e ↦ rw e (omega (arith, ih, size-cons h t, size-cons [] (h ∷ t)))
      | inr e ↦ rw e (omega (arith, ih, size-cons h t, size-cons (c ∷ h) t))
    ]

size-nonempty : (ss : List Str) → size (nonempty ss) ≤ size ss
unfolding nonempty
size-nonempty [] = omega arith
size-nonempty ([] ∷ ss) = omega (arith, size-nonempty ss, size-cons [] ss)
size-nonempty ((c ∷ s) ∷ ss) =
    omega (arith, size-nonempty ss, size-cons (c ∷ s) ss, size-cons (c ∷ s) (nonempty ss))

pub size-components : (s : Str) → size (components s) ≤ length s + 1
unfolding components
size-components s = omega (arith, size-pieces s, size-nonempty ((pieces s).0 ∷ (pieces s).1))

pub take_all : (n : ℕ) (s : Str) → length s ≤ n → take n s ≡ s
take_all zero [] le = refl
take_all zero (c ∷ s) le = absurd (omega arith)
take_all (suc n) [] le = refl
take_all (suc n) (c ∷ s) le = ap (λ t. c ∷ t) (take_all n s (omega arith))

-- A joined string that is short enough has its place.
pub append_lem : (d s : Str) → length d + length s < buffer_size → append d s ≡ some (d ++ s)
unfolding append fit
append_lem d s small =
    let all : take buffer_size s ≡ s = take_all buffer_size s (omega arith) in
    rw all (ground (arith, length-append d s))

pub write_stack_lem :
    (cs : List Str) (acc : Str)
    → length acc + size cs < buffer_size
    → write_stack cs acc ≡ some (acc ++ path_text cs)
unfolding write_stack path_text
write_stack_lem [] acc small = ap (λ t. some t) (sym (append-nil acc))
write_stack_lem (x ∷ xs) acc small =
    let total = size-cons x xs in
    let one : append acc (slash ∷ []) ≡ some (acc ++ (slash ∷ [])) =
      append_lem acc (slash ∷ []) (omega (arith, total)) in
    let longer = length-append acc (slash ∷ []) in
    let two : append (acc ++ (slash ∷ [])) x ≡ some ((acc ++ (slash ∷ [])) ++ x) =
      append_lem (acc ++ (slash ∷ [])) x (omega (arith, total, longer)) in
    let ih =
      write_stack_lem xs ((acc ++ (slash ∷ [])) ++ x)
        (omega (arith, total, longer, length-append (acc ++ (slash ∷ [])) x)) in
    let shape : ((acc ++ (slash ∷ [])) ++ x) ++ path_text xs
        ≡ acc ++ (slash ∷ (x ++ path_text xs)) =
      append_assoc (acc ++ (slash ∷ [])) x (path_text xs)
      ∙ append_assoc acc (slash ∷ []) (x ++ path_text xs) in
    ground (arith, one, two, ih, shape)

unslashed-append :
    (c y : Str)
    → HasNoSlash c
    → (pieces y).0 ≡ []
    → ((pieces (c ++ y)).0 ≡ c) × ((pieces (c ++ y)).1 ≡ (pieces y).1)
unfolding pieces
unslashed-append [] y plain at = (at, refl)
unslashed-append (d ∷ c) y plain at =
    let ih = unslashed-append c y plain.1 at in
    (ground (arith, plain.0, ih.0), ground (arith, plain.0, ih.1))

nonempty-cons : (c : Str) (ss : List Str) → 0 < length c → nonempty (c ∷ ss) ≡ c ∷ nonempty ss
unfolding nonempty
nonempty-cons [] ss pos = absurd (omega arith)
nonempty-cons (d ∷ c) ss pos = refl

path_text-pieces :
    (cs : List Str) (y : Str) → (pieces y).0 ≡ [] → (pieces (path_text cs ++ y)).0 ≡ []
unfolding path_text pieces
path_text-pieces [] y at = at
path_text-pieces (c ∷ cs) y at = refl

pub components-slash : (s : Str) → components (slash ∷ s) ≡ components s
unfolding components pieces nonempty
components-slash s = refl

components-start : (y : Str) → (pieces y).0 ≡ [] → components y ≡ nonempty (pieces y).1
unfolding components nonempty
components-start y at = ap (λ h. nonempty (h ∷ (pieces y).1)) at

components-part :
    (c y : Str) → IsPart c → (pieces y).0 ≡ [] → components (c ++ y) ≡ c ∷ components y
unfolding components
components-part c y part at =
    let split = unslashed-append c y part.1 at in
    ap₂ (λ h t. nonempty (h ∷ t)) split.0 split.1
    ∙ nonempty-cons c (pieces y).1 part.0
    ∙ ap (λ cs. c ∷ cs) (sym (components-start y at))

-- In front of the end or of a slash, the text of components adds these components.
pub components-path_text :
    (cs : List Str) (y : Str)
    → All IsPart cs
    → (pieces y).0 ≡ []
    → components (path_text cs ++ y) ≡ cs ++ components y
unfolding path_text
components-path_text [] y parts at = refl
components-path_text (c ∷ cs) y parts at =
    components-slash ((c ++ path_text cs) ++ y)
    ∙ ap components (append_assoc c (path_text cs) y)
    ∙ components-part c (path_text cs ++ y) parts.0 (path_text-pieces cs y at)
    ∙ ap (λ xs. c ∷ xs) (components-path_text cs y parts.1 at)
