-- ===== src/Strings/Tests.antt =====
-- Witnesses and tests for the strings.
use innovati_os.Base.{ℕ, ◌+◌, ◌-◌, ◌≡◌, refl, List, [], ◌∷◌, if◌then◌else◌, arith, get_or}
use innovati_os.Strings.{Bytes, k_memmove}
use innovati_os.Strings.Copy.{inside, k_memmove_lem}
use innovati_os.Strings.Text.{Holds, Holds-cons, Holds-nil}

-- "ab" at 0 and "c" at 3, each with its NUL.
abbrev test_bytes : Bytes
test_bytes a = get_or (b'a' ∷ b'b' ∷ 0 ∷ b'c' ∷ 0 ∷ []) a 0

abbrev ab : List ℕ
ab = b'a' ∷ b'b' ∷ []

abbrev c : List ℕ
c = b'c' ∷ []

ab-Holds : Holds test_bytes 0 ab
ab-Holds =
    Holds-cons test_bytes 0 b'a' (b'b' ∷ []) refl (omega arith)
      (Holds-cons test_bytes 1 b'b' [] refl (omega arith) (Holds-nil test_bytes 2 refl))

c-Holds : Holds test_bytes 3 c
c-Holds = Holds-cons test_bytes 3 b'c' [] refl (omega arith) (Holds-nil test_bytes 4 refl)

k_memmove_lem_example :
    k_memmove test_bytes 1 0 2 2 ≡ (if inside 1 2 2 then test_bytes (0 + (2 - 1)) else test_bytes 2)
k_memmove_lem_example = k_memmove_lem test_bytes 1 0 2 2
