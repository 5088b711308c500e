-- ===== src/Vfs/Split.antt =====
-- The components of a path, and that the loop of `resolve_path` goes through them.
use innovati_os.Base.{
  ℕ, zero, suc, ◌≤◌, ◌<◌, ◌≡◌, refl, sym, ap, ◌∙◌, ◌⊎◌, inl, inr, false, Bool-cases, some, List, [],
  ◌∷◌, ◌==◌, if◌then◌else◌, arith, length,
}
use innovati_os.Vfs.{Str, slash, skip_slashes, next_component, enter, collect}

-- The part before the first slash, and the parts behind each slash.
unfoldable pub pieces : Str → Str × List Str
pieces [] = ([], [])
pieces (c ∷ s) = let (h, t) = pieces s in if c == slash then ([], h ∷ t) else (c ∷ h, t)

unfoldable pub nonempty : List Str → List Str
nonempty [] = []
nonempty ([] ∷ ss) = nonempty ss
nonempty ((c ∷ s) ∷ ss) = (c ∷ s) ∷ nonempty ss

-- The parts between slashes that are not empty.
unfoldable pub components : Str → List Str
components s = let (h, t) = pieces s in nonempty (h ∷ t)

-- The components are entered one after the other.
unfoldable pub enter_all : List Str → List Str → List Str
enter_all stack [] = stack
enter_all stack (x ∷ xs) = enter_all (enter stack x) xs

next_component-pieces :
    (s : Str)
    → ((next_component s).0 ≡ (pieces s).0)
      × (components (next_component s).1 ≡ nonempty (pieces s).1)
unfolding next_component pieces components nonempty
next_component-pieces [] = (refl, refl)
next_component-pieces (c ∷ s) =
    let ih = next_component-pieces s in
    elim (Bool-cases (c == slash)) [
      | inl e ↦ (ground (arith, ih.0), ground (arith, ih.1))
      | inr e ↦ (ground (arith, ih.0), ground (arith, ih.1))
    ]

length-next_component : (s : Str) → length (next_component s).1 ≤ length s
unfolding next_component
length-next_component [] = omega arith
length-next_component (c ∷ s) = ground (arith, length-next_component s)

length-skip_slashes : (s : Str) → length (skip_slashes s) ≤ length s
unfolding skip_slashes
length-skip_slashes [] = omega arith
length-skip_slashes (c ∷ s) = ground (arith, length-skip_slashes s)

components-skip_slashes : (s : Str) → components (skip_slashes s) ≡ components s
unfolding skip_slashes components pieces nonempty
components-skip_slashes [] = refl
components-skip_slashes (c ∷ s) = elim (Bool-cases (c == slash)) [
  | inl e ↦ ground (arith, components-skip_slashes s)
  | inr e ↦ ground arith
]

skip_slashes-head : (s t : Str) (c : ℕ) → skip_slashes s ≡ c ∷ t → (c == slash) ≡ false
unfolding skip_slashes
skip_slashes-head [] t c e = absurd (ground (arith, e))
skip_slashes-head (d ∷ s) t c e = elim (Bool-cases (d == slash)) [
  | inl h ↦ skip_slashes-head s t c (ground (arith, e, h))
  | inr h ↦ ground (arith, e, h)
]

List-cases : (s : Str) → (s ≡ []) ⊎ ((c : ℕ) × (t : Str) × (s ≡ c ∷ t))
List-cases [] = inl refl
List-cases (c ∷ t) = inr (c, t, refl)

-- The components of a path whose first character is no slash.
components-first :
    (c : ℕ) (t : Str)
    → (c == slash) ≡ false
    → components (c ∷ t) ≡ (next_component (c ∷ t)).0 ∷ components (next_component (c ∷ t)).1
unfolding next_component pieces components nonempty
components-first c t e = let parts = next_component-pieces t in ground (arith, parts.0, parts.1)

length-rest :
    (c : ℕ) (t : Str) → (c == slash) ≡ false → length (next_component (c ∷ t)).1 ≤ length t
unfolding next_component
length-rest c t e = ground (arith, length-next_component t)

-- The loop ends, and it enters the components in their order.
pub collect_lem :
    (fuel : ℕ) (p : Str) (stack : List Str)
    → length p < fuel
    → collect fuel p stack ≡ some (enter_all stack (components p))
unfolding collect enter_all components nonempty pieces
collect_lem zero p stack enough = absurd (omega arith)
collect_lem (suc fuel) p stack enough = elim (List-cases (skip_slashes p)) [
  | inl e ↦
      (let none_left : components p ≡ [] = sym (components-skip_slashes p) ∙ ap components e in
        ground (arith, e, none_left))
  | inr (c, t, e) ↦
      (let plain = skip_slashes-head p t c e in
        let rest : Str = (next_component (c ∷ t)).1 in
        let start : Str = (next_component (c ∷ t)).0 in
        let short : length (c ∷ t) ≤ length p = rw e at (length-skip_slashes p) in
        let parts : components p ≡ start ∷ components rest =
          sym (components-skip_slashes p) ∙ ap components e ∙ components-first c t plain in
        let less : length rest < fuel = omega (arith, length-rest c t plain, short) in
        let ih = collect_lem fuel rest (enter stack start) less in ground (arith, e, parts, ih))
]
