-- ===== src/Vfs/Tests.antt =====
-- Witnesses and tests for the paths.
use innovati_os.Base.{◌≡◌, refl, some, [], ◌∷◌, arith}
use innovati_os.Vfs.{Str, slash, same_text, resolve_path, set_cwd}
use innovati_os.Vfs.Canonical.{IsPlain, IsStack, path_text, render}
use innovati_os.Vfs.Resolve.{target}
use innovati_os.Vfs.Walks.{Walks, at_end, stay, up, down, resolve_path_lem}
use innovati_os.Vfs.Split.{pieces, nonempty, components}
use innovati_os.Vfs.Cwd.{set_cwd_lem}
use innovati_os.Strings.Compare.{text_order}
use innovati_os.Strings.{diff}

abbrev home : Str
home = b'h' ∷ b'o' ∷ b'm' ∷ b'e' ∷ []

home-IsPlain : IsPlain home
unfolding same_text text_order diff
home-IsPlain = record {
  part = (omega arith, (refl, (refl, (refl, (refl, tt)))));
  not_dot = refl;
  not_dot_dot = refl;
}

home-IsStack : IsStack (home ∷ [])
home-IsStack = record { plain = (home-IsPlain, tt); small = omega arith }

-- "../a//./b"
abbrev sibling : Str
sibling = b'.' ∷ b'.' ∷ slash ∷ b'a' ∷ slash ∷ slash ∷ b'.' ∷ slash ∷ b'b' ∷ []

abbrev name_a : Str
name_a = b'a' ∷ []

abbrev name_b : Str
name_b = b'b' ∷ []

letter-IsPlain : IsPlain name_a × IsPlain name_b
unfolding same_text text_order diff
letter-IsPlain = (
  record { part = (omega arith, (refl, tt)); not_dot = refl; not_dot_dot = refl },
  record { part = (omega arith, (refl, tt)); not_dot = refl; not_dot_dot = refl },
)

-- Up from /home to the root, and down into a and b.
sibling-Walks : Walks (home ∷ []) (components sibling) (name_a ∷ name_b ∷ [])
unfolding components pieces nonempty
sibling-Walks = up [] home refl (
    down name_a letter-IsPlain.0 (omega arith)
      (stay (down name_b letter-IsPlain.1 (omega arith) at_end)))

resolve_path_lem_example :
    (resolve_path (render (home ∷ [])) sibling ≡ some (render (name_a ∷ name_b ∷ [])))
    × IsStack (name_a ∷ name_b ∷ [])
unfolding render path_text
resolve_path_lem_example =
    resolve_path_lem (home ∷ []) (name_a ∷ name_b ∷ []) sibling home-IsStack (omega arith)
      sibling-Walks

set_cwd_lem_example :
    (set_cwd (render (home ∷ [])) sibling ≡ some (render (target (home ∷ []) sibling)))
    × IsStack (target (home ∷ []) sibling)
unfolding render path_text
set_cwd_lem_example = set_cwd_lem (home ∷ []) sibling home-IsStack (omega arith)
