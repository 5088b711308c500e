-- ===== src/Vfs/Walk.antt =====
-- `resolve_path` walks from the current directory through the components of the name.
use innovati_os.Base.{
  suc, ◌+◌, ◌<◌, ◌≡◌, refl, ap, ◌∙◌, true, false, Bool-cases, inl, inr, some, List, [], ◌∷◌, ◌++◌,
  arith, length, length-append,
}
use mathlib.Core.List.{append_assoc}
use innovati_os.Vfs.{
  Str, slash, buffer_size, fit, append, starts_slash, join_cwd, fill_temp, collect, write_path,
  resolve_path,
}
use innovati_os.Vfs.Split.{pieces, components, enter_all, collect_lem}
use innovati_os.Vfs.Canonical.{IsStack, path_text, render, enter_all-IsStack, components-IsPart}
use innovati_os.Vfs.Render.{append_lem, components-slash, components-path_text}
use innovati_os.Vfs.Resolve.{
  All-IsPart, base, target, enter_all-append, enter_all-plain, write_path-render, size-target,
  ends_slash-path_text,
}

-- What `temp` holds: a path whose components, from the root, lead to the target.
Filled : List Str → Str → Type 0
Filled cs name =
    (temp : Str) × (fill_temp (render cs) name ≡ some temp)
    × (enter_all [] (components temp) ≡ target cs name)

fill_temp_absolute :
    (cs : List Str) (name : Str)
    → starts_slash name ≡ true
    → length name < buffer_size
    → Filled cs name
unfolding Filled fill_temp fit
fill_temp_absolute cs name e small = (name, ground (arith, e), rw e refl)

fill_temp_root :
    (name : Str) → starts_slash name ≡ false → length name + 1 < buffer_size → Filled [] name
unfolding Filled fill_temp fit render join_cwd
fill_temp_root name e small =
    let joined : append (slash ∷ []) name ≡ some (slash ∷ name) =
      append_lem (slash ∷ []) name (omega arith) in
    (slash ∷ name, ground (arith, e, joined), rw e (ap (enter_all []) (components-slash name)))

fill_temp_below :
    (c : Str) (cs : List Str) (name : Str)
    → IsStack (c ∷ cs)
    → starts_slash name ≡ false
    → length (path_text (c ∷ cs)) + 1 + length name < buffer_size
    → Filled (c ∷ cs) name
unfolding Filled fill_temp fit render join_cwd path_text pieces
fill_temp_below c cs name v e small =
    let p : Str = path_text (c ∷ cs) in
    let parts = All-IsPart (c ∷ cs) v.plain in
    let one : append p (slash ∷ []) ≡ some (p ++ (slash ∷ [])) =
      append_lem p (slash ∷ []) (omega arith) in
    let two : append (p ++ (slash ∷ [])) name ≡ some ((p ++ (slash ∷ [])) ++ name) =
      append_lem (p ++ (slash ∷ [])) name (omega (arith, length-append p (slash ∷ []))) in
    let shape : (p ++ (slash ∷ [])) ++ name ≡ p ++ (slash ∷ name) =
      append_assoc p (slash ∷ []) name in
    let walk : enter_all [] (components (p ++ (slash ∷ name)))
        ≡ enter_all (c ∷ cs) (components name) =
      ap (enter_all []) (
        components-path_text (c ∷ cs) (slash ∷ name) parts refl
        ∙ ap (λ xs. (c ∷ cs) ++ xs) (components-slash name))
      ∙ enter_all-append [] (c ∷ cs) (components name)
      ∙ ap (λ st. enter_all st (components name))
          (enter_all-plain (c ∷ cs) [] v.plain (omega (arith, v.small))) in
    (
      p ++ (slash ∷ name),
      ground (arith, e, one, two, shape, ends_slash-path_text c cs parts),
      rw e walk,
    )

fill_temp_lem :
    (cs : List Str) (name : Str)
    → IsStack cs
    → length (render cs) + 1 + length name < buffer_size
    → Filled cs name
unfolding render
fill_temp_lem [] name v small = elim (Bool-cases (starts_slash name)) [
  | inl e ↦ fill_temp_absolute [] name e (omega arith)
  | inr e ↦ fill_temp_root name e (omega arith)
]
fill_temp_lem (c ∷ cs) name v small = elim (Bool-cases (starts_slash name)) [
  | inl e ↦ fill_temp_absolute (c ∷ cs) name e (omega arith)
  | inr e ↦ fill_temp_below c cs name v e small
]

base-IsStack : (cs : List Str) (name : Str) → IsStack cs → IsStack (base cs name)
base-IsStack cs name v = elim (Bool-cases (starts_slash name)) [
  | inl e ↦ rw e (record { plain = tt; small = omega arith })
  | inr e ↦ rw e v
]

-- If the path and the name fit into the buffer, resolve_path overflows no buffer and ends with the
-- canonical path that entering the name's components leads to.
pub resolve_path-target :
    (cs : List Str) (name : Str)
    → IsStack cs
    → length (render cs) + 1 + length name < buffer_size
    → (resolve_path (render cs) name ≡ some (render (target cs name))) × IsStack (target cs name)
unfolding resolve_path Filled
resolve_path-target cs name v small =
    let (temp, fills, walk) = fill_temp_lem cs name v small in
    let run : collect (suc (length temp)) temp [] ≡ some (target cs name) =
      collect_lem (suc (length temp)) temp [] (omega arith) ∙ ap (λ st. some st) walk in
    let written : write_path (target cs name) ≡ some (render (target cs name)) =
      write_path-render (target cs name) (omega (arith, size-target cs name)) in
    (
      ground (arith, fills, run, written),
      enter_all-IsStack (components name) (base cs name) (base-IsStack cs name v)
          (components-IsPart name),
    )
