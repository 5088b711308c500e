-- ===== src/Vfs/Resolve.antt =====
-- What `resolve_path` and `vfs_set_cwd` compute.
use innovati_os.Base.{
  ℕ, suc, ◌+◌, ◌-◌, ◌≤◌, ◌<◌, ◌≡◌, refl, sym, ap, ◌∙◌, false, some, List, [], ◌∷◌, ◌++◌, ◌==◌,
  if◌then◌else◌, arith, length, get_or, length-append, All,
}
use mathlib.Core.List.{append_assoc, append-nil}
use innovati_os.Vfs.{
  Str, slash, buffer_size, stack_size, enter, starts_slash, ends_slash, write_path,
}
use innovati_os.Vfs.Split.{components, enter_all}
use innovati_os.Vfs.Canonical.{HasNoSlash, IsPart, IsPlain, path_text, render}
use innovati_os.Vfs.Render.{size, size-enter_all, size-components, write_stack_lem}

pub All-IsPart : (cs : List Str) → All IsPlain cs → All IsPart cs
All-IsPart [] a = tt
All-IsPart (c ∷ cs) a = (a.0.part, All-IsPart cs a.1)

pub enter_all-append :
    (st xs ys : List Str) → enter_all st (xs ++ ys) ≡ enter_all (enter_all st xs) ys
unfolding enter_all
enter_all-append st [] ys = refl
enter_all-append st (x ∷ xs) ys = enter_all-append (enter st x) xs ys

pub enter-plain :
    (st : List Str) (x : Str) → IsPlain x → length st < stack_size → enter st x ≡ st ++ (x ∷ [])
unfolding enter
enter-plain st x p room = ground (arith, p.not_dot, p.not_dot_dot)

pub enter_all-plain :
    (xs st : List Str)
    → All IsPlain xs
    → length st + length xs ≤ stack_size
    → enter_all st xs ≡ st ++ xs
unfolding enter_all
enter_all-plain [] st plain small = sym (append-nil st)
enter_all-plain (x ∷ xs) st plain small =
    let one = enter-plain st x plain.0 (omega arith) in
    let ih =
      enter_all-plain xs (st ++ (x ∷ [])) plain.1 (omega (arith, length-append st (x ∷ []))) in
    ap (λ t. enter_all t xs) one ∙ ih ∙ append_assoc st (x ∷ []) xs

-- Where the walk begins: at the root for an absolute name, otherwise at the current directory.
abbrev pub base : List Str → Str → List Str
base cs name = if starts_slash name then [] else cs

-- The components of the path that a name stands for.
abbrev pub target : List Str → Str → List Str
target cs name = enter_all (base cs name) (components name)

length-render : (cs : List Str) → (size cs ≤ length (render cs)) × (0 < length (render cs))
unfolding render path_text
length-render [] = (omega arith, omega arith)
length-render (c ∷ cs) = (omega arith, omega arith)

pub write_path-render : (cs : List Str) → size cs < buffer_size → write_path cs ≡ some (render cs)
unfolding write_path render
write_path-render [] small = refl
write_path-render (c ∷ cs) small = write_stack_lem (c ∷ cs) [] (omega arith)

pub size-target :
    (cs : List Str) (name : Str) → size (target cs name) ≤ length (render cs) + length name + 1
unfolding path_text
size-target cs name =
    ground (
      arith,
      size-enter_all (components name) (base cs name),
      size-components name,
      length-render cs,
    )

ends_slash-cons : (x : ℕ) (s : Str) → 0 < length s → ends_slash (x ∷ s) ≡ ends_slash s
ends_slash-cons x [] pos = absurd (omega arith)
ends_slash-cons x (y ∷ s) pos =
    let at : length (x ∷ y ∷ s) - 1 ≡ suc (length (y ∷ s) - 1) = omega arith in
    ap (λ i. get_or (x ∷ y ∷ s) i 0 == slash) at

ends_slash-append : (s t : Str) → 0 < length t → ends_slash (s ++ t) ≡ ends_slash t
ends_slash-append [] t pos = refl
ends_slash-append (x ∷ s) t pos =
    ends_slash-cons x (s ++ t) (omega (arith, length-append s t)) ∙ ends_slash-append s t pos

ends_slash-plain : (s : Str) → HasNoSlash s → ends_slash s ≡ false
ends_slash-plain [] plain = refl
ends_slash-plain (x ∷ []) plain = plain.0
ends_slash-plain (x ∷ y ∷ s) plain =
    ends_slash-cons x (y ∷ s) (omega arith) ∙ ends_slash-plain (y ∷ s) plain.1

-- Only the root ends in a slash.
pub ends_slash-path_text :
    (c : Str) (cs : List Str) → All IsPart (c ∷ cs) → ends_slash (path_text (c ∷ cs)) ≡ false
unfolding path_text
ends_slash-path_text c [] parts =
    ends_slash-cons slash (c ++ []) (omega (arith, length-append c [], parts.0.0))
    ∙ ap ends_slash (append-nil c)
    ∙ ends_slash-plain c parts.0.1
ends_slash-path_text c (d ∷ cs) parts =
    ends_slash-append (slash ∷ c) (path_text (d ∷ cs)) (omega arith)
    ∙ ends_slash-path_text d cs parts.1
