-- ===== src/InnoFs/Path.antt =====
-- Paths and rights: `split_path` and `check_access`.
use innovati_os.Base.{
  ℕ, suc, ◌+◌, ◌≡◌, ◌≢◌, refl, ap, ◌∙◌, ◌⊎◌, inl, inr, Bool, true, false, not, Option, none, some,
  [], ◌∷◌, ◌++◌, ◌==◌, if◌then◌else◌, All, arith, length, take, drop, bit_and, ℕ_discrete,
}
use innovati_os.Vfs.{Str, slash}

-- `struct innofs_dirent`, the fields that the check reads.
pub record Dirent : Type 0 where
  pub flags : ℕ
  pub owner_uid : ℕ

unfoldable pub check_access : Dirent → ℕ → Bool
check_access dirent uid =
    if uid == 0
    then true
    else if not (bit_and dirent.flags 0x02 == 0)
    then false
    else if not (bit_and dirent.flags 0x04 == 0)
    then dirent.owner_uid == uid
    else true

-- The loop that finds the last slash.
unfoldable pub last_slash : Str → ℕ → Option ℕ → Option ℕ
last_slash [] i last = last
last_slash (c ∷ path) i last = last_slash path (i + 1) (if c == slash then some i else last)

-- `none` is the result -1; the buffers are large enough.
unfoldable pub split_path : Str → Option (Str × Str)
split_path path = elim (last_slash path 0 none) [
  | none ↦ none
  | some last ↦ some (if last == 0 then slash ∷ [] else take last path, drop (last + 1) path)
]

-- No slash in the text.
abbrev pub IsName : Str → Type 0
IsName name = All (λ c. c ≢ slash) name

last_slash_lem :
    (path : Str) (i : ℕ) (last : Option ℕ)
    → ((last_slash path i last ≡ last) × IsName path)
      ⊎ ((front : Str) × (name : Str) × (path ≡ front ++ (slash ∷ name))
          × IsName name
          × (last_slash path i last ≡ some (i + length front)))
unfolding last_slash
last_slash_lem [] i last = inl (refl, tt)
last_slash_lem (c ∷ path) i last =
    let here : Option ℕ = if c == slash then some i else last in
    elim (last_slash_lem path (i + 1) here) [
      | inr (front, name, whole, plain, run) ↦
          (let index : (i + 1) + length front ≡ i + suc (length front) = omega arith in
            inr (c ∷ front, name, ap (λ s. c ∷ s) whole, plain, run ∙ ap (λ n. some n) index))
      | inl (run, plain) ↦ elim (ℕ_discrete c slash) [
        | yes e ↦
            (let index : i ≡ i + 0 = omega arith in
              inr (
                [],
                path,
                ap (λ x. x ∷ path) e,
                plain,
                run ∙ ground (arith, e) ∙ ap (λ n. some n) index,
              ))
        | no other ↦ inl (run ∙ ground (arith, other), (other, plain))
      ]
    ]

take-append_self : (front rest : Str) → take (length front) (front ++ rest) ≡ front
take-append_self [] rest = refl
take-append_self (c ∷ front) rest = ap (λ s. c ∷ s) (take-append_self front rest)

drop-append_self :
    (front name : Str) (c : ℕ) → drop (suc (length front)) (front ++ (c ∷ name)) ≡ name
drop-append_self [] name c = refl
drop-append_self (x ∷ front) name c = drop-append_self front name c

-- The directory of a path that begins like that.
unfoldable pub directory : Str → Str
directory [] = slash ∷ []
directory (c ∷ front) = c ∷ front

parts : Str → ℕ → Str × Str
parts path last = (if last == 0 then slash ∷ [] else take last path, drop (last + 1) path)

parts-directory :
    (front name : Str) → parts (front ++ (slash ∷ name)) (length front) ≡ (directory front, name)
unfolding parts directory
parts-directory [] name = refl
parts-directory (c ∷ front) name =
    let next : suc (length front) + 1 ≡ suc (suc (length front)) = omega arith in
    let not_first : (suc (length front) == 0) ≡ false = ground arith in
    ap
      (λ b. (
        if b then slash ∷ [] else c ∷ take (length front) (front ++ (slash ∷ name)),
        drop (suc (length front) + 1) (c ∷ (front ++ (slash ∷ name))),
      ))
      not_first
    ∙ ap (λ t. (c ∷ t, drop (suc (length front) + 1) (c ∷ (front ++ (slash ∷ name)))))
        (take-append_self front (slash ∷ name))
    ∙ ap (λ n. (c ∷ front, drop n (c ∷ (front ++ (slash ∷ name))))) next
    ∙ ap (λ t. (c ∷ front, t)) (drop-append_self front name slash)

-- A path without a slash gives -1; any other one is cut at its last slash into the directory, `/` if
-- nothing is in front of it, and the name.
pub split_path_lem :
    (path : Str)
    → ((split_path path ≡ none) × IsName path)
      ⊎ ((front : Str) × (name : Str) × (path ≡ front ++ (slash ∷ name))
          × IsName name
          × (split_path path ≡ some (directory front, name)))
unfolding split_path parts
split_path_lem path = elim (last_slash_lem path 0 none) [
  | inl (run, plain) ↦ inl (ground (arith, run), plain)
  | inr (front, name, whole, plain, run) ↦ inr (
    front,
    name,
    whole,
    plain,
    ground (arith, run)
        ∙ ap (λ s. some (parts s (length front))) whole
        ∙ ap (λ r. some r) (parts-directory front name),
  )
]
