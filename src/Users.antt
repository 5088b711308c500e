-- ===== src/Users.antt =====
-- The users, userspace/src/user.c: a table of 16 slots, a count and the next user id.
--
-- A name or a password is the list of its characters before the NUL. A pointer to a slot is its
-- index. What the functions write to the file system is not part of the state; what the load of
-- the table from it gives is an argument of `user_init`.
pub mod Find
pub mod Add
pub mod Login
mod Tests
use innovati_os.Base.{
  ℕ, zero, suc, ◌+◌, ◌-◌, ◌*◌, Bool, true, false, not, ◌&&◌, Option, none, some, List, [], ◌∷◌,
  ◌==◌, ltb, leb, if◌then◌else◌, update, take, u32, u64, add64, find_slot,
}
use innovati_os.Strings.{ℤ}
use innovati_os.Vfs.{Str, same_text}

abbrev pub user_max : ℕ
user_max = 16

abbrev pub user_name_max : ℕ
user_name_max = 32

-- `user_t`
pub record User : Type 0 where
  pub used : Bool
  pub uid : ℕ
  pub username : Str
  pub password_hash : ℕ
  pub is_admin : Bool

pub record Users : Type 0 where
  pub users : ℕ → User
  pub user_count : ℕ
  pub next_uid : ℕ

unfoldable pub hash_from : ℕ → Str → ℕ
hash_from hash [] = hash
hash_from hash (c ∷ password) = hash_from (add64 (add64 (u64 (hash * 32)) hash) c) password

unfoldable pub user_hash_password : Str → ℕ
user_hash_password password = hash_from 5381 password

abbrev pub is_named : Str → User → Bool
is_named username u = u.used && same_text u.username username

abbrev pub is_login : Str → ℕ → User → Bool
is_login username hash u = u.used && (same_text u.username username && (u.password_hash == hash))

abbrev pub is_unused : User → Bool
is_unused u = not u.used

abbrev pub is_used_admin : User → Bool
is_used_admin u = u.used && u.is_admin

abbrev pub is_used : User → Bool
is_used u = u.used

unfoldable pub user_authenticate : Users → Str → Str → Option ℕ
user_authenticate s username password =
    find_slot (is_login username (user_hash_password password)) s.users user_max 0

unfoldable pub user_auto_login : Users → Option ℕ
user_auto_login s = elim (find_slot is_used_admin s.users user_max 0) [
  | some i ↦ some i
  | none ↦ find_slot is_used s.users user_max 0
]

-- The slot that `user_add` fills.
abbrev pub new_user : Users → Str → Str → Bool → User
new_user s username password is_admin = record {
  used = true;
  uid = s.next_uid;
  username = take (user_name_max - 1) username;
  password_hash = user_hash_password password;
  is_admin = is_admin;
}

unfoldable pub fill_slot : Users → ℕ → User → Users
fill_slot s i u = record {
  users = update s.users i u;
  user_count = u32 (s.user_count + 1);
  next_uid = u32 (s.next_uid + 1);
}

-- The last loop of `user_add`.
unfoldable pub add_user : Users → User → Users × ℤ
add_user s u = elim (find_slot is_unused s.users user_max 0) [
  | some i ↦ (fill_slot s i u, ℤ.pos 0)
  | none ↦ (s, ℤ.negsuc 0)
]

unfoldable pub user_add : Users → Str → Str → Bool → Users × ℤ
user_add s username password is_admin =
    if leb user_max s.user_count
    then (s, ℤ.negsuc 0)
    else elim (find_slot (is_named username) s.users user_max 0) [
      | some i ↦ (s, ℤ.negsuc 1)
      | none ↦ add_user s (new_user s username password is_admin)
    ]

unfoldable pub user_get_by_index : Users → ℕ → Option ℕ
user_get_by_index s index =
    if leb user_max index then none else if (s.users index).used then some index else none

unfoldable pub user_change_password : Users → Option ℕ → Str → Users × ℤ
user_change_password s none new_password = (s, ℤ.negsuc 0)
user_change_password s (some i) new_password = (
  record s {
    users = update s.users i (record u { password_hash = user_hash_password new_password });
  },
  ℤ.pos 0,
)
  where
    u : User
    u = s.users i

unfoldable pub user_set_admin : Users → Str → Bool → Users × ℤ
user_set_admin s username is_admin = elim (find_slot (is_named username) s.users user_max 0) [
  | some i ↦
      (let u = s.users i in
        (record s { users = update s.users i (record u { is_admin = is_admin }) }, ℤ.pos 0))
  | none ↦ (s, ℤ.negsuc 0)
]

abbrev pub empty_user : User
empty_user = record { used = false; uid = 0; username = []; password_hash = 0; is_admin = false }

abbrev pub no_users : Users
no_users = record { users = λ i. empty_user; user_count = 0; next_uid = 0 }

abbrev pub root_name : Str
root_name = b'r' ∷ b'o' ∷ b'o' ∷ b't' ∷ []

abbrev pub guest_name : Str
guest_name = b'g' ∷ b'u' ∷ b'e' ∷ b's' ∷ b't' ∷ []

abbrev pub root_password : Str
root_password = b'i' ∷ b'n' ∷ b'n' ∷ b'o' ∷ b'v' ∷ b'a' ∷ b't' ∷ b'i' ∷ b'o' ∷ b's' ∷ []

-- `loaded` is the table that `user_load_from_disk` reads, `none` its `false`.
unfoldable pub user_init : Option Users → Users
user_init (some loaded) = loaded
user_init none =
    let s = (user_add no_users root_name root_password true).0 in
    (user_add s guest_name guest_name false).0
