-- ===== src/Vfs/Cwd.antt =====
-- Resolving canonical paths and "..", and the current directory.
use innovati_os.Base.{
  ◌+◌, ◌<◌, ◌≡◌, refl, sym, ap, ◌∙◌, true, false, ◌&&◌, some, List, [], ◌∷◌, ltb, arith, length,
  All,
}
use mathlib.Core.List.{append-nil}
use innovati_os.Vfs.{
  Str, dot_dot, buffer_size, same_text, enter, starts_slash, ends_slash, resolve_path, drop_last,
  set_cwd,
}
use innovati_os.Vfs.Split.{pieces, nonempty, components, enter_all}
use innovati_os.Vfs.Canonical.{IsPart, IsStack, path_text, render}
use innovati_os.Vfs.Render.{components-path_text}
use innovati_os.Vfs.Resolve.{All-IsPart, target, enter_all-plain, ends_slash-path_text}
use innovati_os.Vfs.Walk.{resolve_path-target}
use innovati_os.Strings.Compare.{text_order}

components-render : (ds : List Str) → All IsPart ds → components (render ds) ≡ ds
unfolding render path_text components pieces nonempty
components-render [] parts = refl
components-render (d ∷ ds) parts =
    ap components (sym (append-nil (path_text (d ∷ ds))))
    ∙ components-path_text (d ∷ ds) [] parts refl
    ∙ append-nil (d ∷ ds)

starts_slash-render : (ds : List Str) → starts_slash (render ds) ≡ true
unfolding render path_text
starts_slash-render [] = refl
starts_slash-render (d ∷ ds) = refl

target-render : (cs ds : List Str) → IsStack ds → target cs (render ds) ≡ ds
target-render cs ds v =
    let walk : enter_all [] (components (render ds)) ≡ ds =
      ap (enter_all []) (components-render ds (All-IsPart ds v.plain))
      ∙ enter_all-plain ds [] v.plain (omega (arith, v.small)) in
    rw (starts_slash-render ds) walk

-- If two canonical paths fit into the buffer with one character more, resolve_path leaves the one
-- as it is whatever the current directory is that the other names.
pub resolve_path-render :
    (cs ds : List Str)
    → IsStack cs
    → IsStack ds
    → length (render cs) + 1 + length (render ds) < buffer_size
    → resolve_path (render cs) (render ds) ≡ some (render ds)
resolve_path-render cs ds v w small =
    (resolve_path-target cs (render ds) v small).0
    ∙ ap (λ t. some (render t)) (target-render cs ds w)

target-dot_dot : (cs : List Str) → target cs dot_dot ≡ drop_last cs
unfolding enter_all enter components pieces nonempty same_text text_order drop_last
    innovati_os.Strings.diff
target-dot_dot cs = refl

-- If the current directory is canonical and three characters fit behind it, ".." resolves to its
-- parent, and to the root at the root.
pub resolve_path-dot_dot :
    (cs : List Str)
    → IsStack cs
    → length (render cs) + 3 < buffer_size
    → resolve_path (render cs) dot_dot ≡ some (render (drop_last cs))
resolve_path-dot_dot cs v small =
    (resolve_path-target cs dot_dot v (omega arith)).0
    ∙ ap (λ t. some (render t)) (target-dot_dot cs)

-- A canonical path needs no trimming.
trim : (cs : List Str) → IsStack cs → ltb 1 (length (render cs)) && ends_slash (render cs) ≡ false
unfolding render
trim [] v = refl
trim (c ∷ cs) v = ground (arith, ends_slash-path_text c cs (All-IsPart (c ∷ cs) v.plain))

-- If the current directory is a canonical path and its length, that of the path and 1 are below
-- 256, vfs_set_cwd makes it the path that resolve_path finds, which is canonical again.
pub set_cwd_lem :
    (cs : List Str) (path : Str)
    → IsStack cs
    → length (render cs) + 1 + length path < buffer_size
    → (set_cwd (render cs) path ≡ some (render (target cs path))) × IsStack (target cs path)
unfolding set_cwd
set_cwd_lem cs path v small =
    let found = resolve_path-target cs path v small in
    (ground (arith, found.0, trim (target cs path) found.1), found.1)
