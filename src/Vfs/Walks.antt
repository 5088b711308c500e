-- ===== src/Vfs/Walks.antt =====
-- What a path means, apart from the code of `resolve_path`: a walk over directories.
use innovati_os.Base.{◌+◌, ◌<◌, ◌≡◌, refl, subst, ap, ◌∙◌, some, List, [], ◌∷◌, ◌++◌, length}
use innovati_os.Vfs.{
  Str, dot, dot_dot, buffer_size, stack_size, same_text, drop_last, enter, resolve_path,
}
use innovati_os.Vfs.Split.{components, enter_all}
use innovati_os.Vfs.Canonical.{IsPlain, IsStack, render}
use innovati_os.Vfs.Resolve.{base, target, enter-plain}
use innovati_os.Vfs.Walk.{resolve_path-target}
use innovati_os.Strings.{diff}
use innovati_os.Strings.Compare.{text_order}

-- `Walks at xs out`: whoever follows the components xs from the directory with the components at
-- ends in the one with the components out, and is never more than 32 components deep.
pub data Walks : List Str → List Str → List Str → Type 0 where
  at_end : {at : List Str} → Walks at [] at
  stay : {at xs out : List Str} → Walks at xs out → Walks at (dot ∷ xs) out
  at_root : {xs out : List Str} → Walks [] xs out → Walks [] (dot_dot ∷ xs) out
  up :
      {at xs out : List Str} (parent : List Str) (x : Str)
      → at ≡ parent ++ (x ∷ [])
      → Walks parent xs out
      → Walks at (dot_dot ∷ xs) out
  down :
      {at xs out : List Str} (x : Str)
      → IsPlain x
      → length at < stack_size
      → Walks (at ++ (x ∷ [])) xs out
      → Walks at (x ∷ xs) out

drop_last-append : (xs : List Str) (x : Str) → drop_last (xs ++ (x ∷ [])) ≡ xs
unfolding drop_last
drop_last-append [] x = refl
drop_last-append (y ∷ []) x = refl
drop_last-append (y ∷ z ∷ xs) x = ap (λ t. y ∷ t) (drop_last-append (z ∷ xs) x)

enter-dot : (at : List Str) → enter at dot ≡ at
unfolding enter same_text text_order diff
enter-dot at = refl

enter-dot_dot : (at : List Str) → enter at dot_dot ≡ drop_last at
unfolding enter same_text text_order diff
enter-dot_dot at = refl

enter-up : (at parent : List Str) (x : Str) → at ≡ parent ++ (x ∷ []) → enter at dot_dot ≡ parent
enter-up at parent x e = enter-dot_dot at ∙ ap drop_last e ∙ drop_last-append parent x

-- The loop of resolve_path follows the walk.
enter_all-Walks : (at xs out : List Str) → Walks at xs out → enter_all at xs ≡ out
unfolding enter_all drop_last
enter_all-Walks _ _ _ at_end = refl
enter_all-Walks _ _ out (stay {at} {xs} w) =
    ap (λ t. enter_all t xs) (enter-dot at) ∙ enter_all-Walks at xs out w
enter_all-Walks _ _ out (at_root {xs} w) =
    ap (λ t. enter_all t xs) (enter-dot_dot []) ∙ enter_all-Walks [] xs out w
enter_all-Walks _ _ out (up {at} {xs} parent x e w) =
    ap (λ t. enter_all t xs) (enter-up at parent x e) ∙ enter_all-Walks parent xs out w
enter_all-Walks _ _ out (down {at} {xs} x plain room w) =
    ap (λ t. enter_all t xs) (enter-plain at x plain room)
    ∙ enter_all-Walks (at ++ (x ∷ [])) xs out w

-- If the current directory is a canonical path, its length, that of the name and 1 are below 256,
-- and the walk through the name's components, from the root for a name that begins with a slash
-- and from the current directory otherwise, ends in a directory and is never more than 32
-- components deep, resolve_path overflows no buffer and gives the canonical path of that
-- directory. On the walk, '.' stays, '..' goes to the parent and stays at the root, and any other
-- component goes down into it.
pub resolve_path_lem :
    (cs ds : List Str) (name : Str)
    → IsStack cs
    → length (render cs) + 1 + length name < buffer_size
    → Walks (base cs name) (components name) ds
    → (resolve_path (render cs) name ≡ some (render ds)) × IsStack ds
resolve_path_lem cs ds name v small walk =
    let (run, stack) = resolve_path-target cs name v small in
    let there : target cs name ≡ ds = enter_all-Walks (base cs name) (components name) ds walk in
    (run ∙ ap (λ t. some (render t)) there, subst IsStack there stack)
