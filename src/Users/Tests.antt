-- ===== src/Users/Tests.antt =====
-- Witnesses for the users.
use innovati_os.Base.{ℕ, ◌≤◌, ◌<◌, ◌≡◌, refl, ◌⊎◌, true, false, none, some, [], ◌∷◌, arith}
use innovati_os.Strings.{ℤ}
use innovati_os.Vfs.{Str, same_text}
use innovati_os.Base.{find_slot}
use innovati_os.Users.{
  Users, user_max, user_hash_password, is_named, is_login, new_user, user_authenticate, user_add,
  add_user, fill_slot, user_init, no_users,
}
use innovati_os.Users.Add.{IsUsers, IsNew, Adds, user_add_lem, no_users-IsUsers, user_init-IsUsers}
use innovati_os.Users.Login.{user_authenticate-user_add, user_authenticate_lem}

abbrev first : Users
first = user_init none

first-IsUsers : IsUsers first
first-IsUsers = user_init-IsUsers none (λ s e. absurd (ground (arith, e)))

abbrev ada : Str
ada = b'a' ∷ b'd' ∷ b'a' ∷ []

user_add_lem_example :
    ((user_max ≤ first.user_count) × (user_add first ada ada true ≡ (first, ℤ.negsuc 0)))
    ⊎ ((((k : ℕ) × (k < user_max) × (is_named ada (first.users k) ≡ true))
          × (user_add first ada ada true ≡ (first, ℤ.negsuc 1)))
        ⊎ (IsNew first ada
            × ((i : ℕ) × (t : Users) × (user_add first ada ada true ≡ (t, ℤ.pos 0))
                × Adds first (new_user first ada ada true) t i)))
user_add_lem_example = user_add_lem first ada ada true first-IsUsers (omega arith)

abbrev second : Users
second = (user_add no_users ada ada true).0

-- The test reads the table at its first slot only.
added : user_add no_users ada ada true ≡ (second, ℤ.pos 0)
unfolding user_add add_user find_slot fill_slot
added = refl

user_authenticate-user_add_example :
    (i : ℕ) × (user_authenticate second ada ada ≡ some i)
    × (second.users i ≡ new_user no_users ada ada true)
user_authenticate-user_add_example =
    user_authenticate-user_add no_users second ada ada true no_users-IsUsers (omega arith) added

user_authenticate_lem_example :
    ((user_authenticate first ada ada ≡ none)
      × ((j : ℕ) → j < user_max → is_login ada (user_hash_password ada) (first.users j) ≡ false))
    ⊎ ((i : ℕ) × (user_authenticate first ada ada ≡ some i)
        × (i < user_max)
        × ((first.users i).used ≡ true)
        × (same_text (first.users i).username ada ≡ true)
        × ((first.users i).password_hash ≡ user_hash_password ada))
user_authenticate_lem_example = user_authenticate_lem first ada ada
