-- ===== src/Users/Login.antt =====
-- Logging in, and changing a user.
use innovati_os.Base.{
  ℕ, zero, suc, ◌<◌, ◌≡◌, ◌≢◌, refl, sym, ◌∙◌, ◌⊎◌, inl, inr, Bool, true, false, none, some, update,
  arith, take, length, ℕ_discrete,
}
use mathlib.Core.Path.{ap₂}
use innovati_os.Strings.{ℤ}
use innovati_os.Vfs.{Str, same_text}
use innovati_os.Users.{
  User, Users, user_max, user_name_max, user_hash_password, is_named, is_login, new_user,
  user_authenticate, user_add, user_set_admin,
}
use innovati_os.Base.{find_slot_lem, find_only}
use innovati_os.Users.Find.{count_used, same_text_refl}
use innovati_os.Users.Add.{IsUsers, IsNew, Adds, user_add_lem, take_short}

-- After user_add returned 0 on a valid table, for a name of fewer than 32 characters,
-- user_authenticate with the same name and password gives the slot of the new user.
pub user_authenticate-user_add :
    (s t : Users) (username password : Str) (is_admin : Bool)
    → IsUsers s
    → length username < user_name_max
    → user_add s username password is_admin ≡ (t, ℤ.pos 0)
    → (i : ℕ) × (user_authenticate t username password ≡ some i)
      × (t.users i ≡ new_user s username password is_admin)
unfolding user_authenticate
user_authenticate-user_add s t username password is_admin v short run =
    elim (user_add_lem s username password is_admin v short) [
      | inl h ↦ absurd (ground (arith, h.1, run))
      | inr (inl h) ↦ absurd (ground (arith, h.1, run))
      | inr (inr (new, (i, w, run', a))) ↦
          (let same : w ≡ t = ground (arith, run, run') in
            let b : Adds s (new_user s username password is_admin) t i = rw same at a in
            let whole : take 31 username ≡ username = take_short 31 username (omega arith) in
            let equal : same_text (take 31 username) username ≡ true =
              rw whole (same_text_refl username) in
            (
              i,
              find_only (is_login username (user_hash_password password)) t.users user_max i
                  b.within (ground (arith, b.now, equal))
                  (λ j lt ne. ground (arith, b.others j ne, new j lt)),
              b.now,
            ))
    ]

-- user_authenticate gives a slot only if it is in use, has the name and holds the password's
-- hash, and it gives none only if no slot does.
pub user_authenticate_lem :
    (s : Users) (username password : Str)
    → ((user_authenticate s username password ≡ none)
        × ((j : ℕ)
            → j < user_max
            → is_login username (user_hash_password password) (s.users j) ≡ false))
      ⊎ ((i : ℕ) × (user_authenticate s username password ≡ some i)
          × (i < user_max)
          × ((s.users i).used ≡ true)
          × (same_text (s.users i).username username ≡ true)
          × ((s.users i).password_hash ≡ user_hash_password password))
unfolding user_authenticate
user_authenticate_lem s username password =
    elim (find_slot_lem (is_login username (user_hash_password password)) s.users user_max 0) [
      | inl h ↦ inl (h.0, λ j lt. h.1 j (omega arith) (omega arith))
      | inr (i, run, f) ↦
          (let pass = f.passes in
            inr (i, run, omega (arith, f.within), ground arith, ground arith, ground arith))
    ]

count_used-same :
    (us vs : ℕ → User) (n : ℕ)
    → ((j : ℕ) → (vs j).used ≡ (us j).used)
    → count_used vs n ≡ count_used us n
unfolding count_used
count_used-same us vs zero same = refl
count_used-same us vs (suc n) same = ground (arith, same n, count_used-same us vs n same)

-- A change that leaves use, id and name of every slot keeps the invariant.
same-IsUsers :
    (s : Users) (us : ℕ → User)
    → IsUsers s
    → ((j : ℕ) → (us j).used ≡ (s.users j).used)
    → ((j : ℕ) → (us j).uid ≡ (s.users j).uid)
    → ((j : ℕ) → (us j).username ≡ (s.users j).username)
    → IsUsers (record s { users = us })
same-IsUsers s us v used uid name = record {
  counted = v.counted ∙ sym (count_used-same s.users us user_max used);
  numbered = v.numbered;
  old_uid = λ i lt inuse. ground (arith, v.old_uid i lt, used i, uid i, inuse);
  uid_once = λ i j il jl ui uj e.
      v.uid_once i j il jl (sym (used i) ∙ ui) (sym (used j) ∙ uj) (sym (uid i) ∙ e ∙ uid j);
  name_once = λ i j il jl ui uj e.
      v.name_once i j il jl (sym (used i) ∙ ui) (sym (used j) ∙ uj)
        (sym (ap₂ same_text (name i) (name j)) ∙ e);
}

-- On a valid table, user_set_admin returns -1 without a change if no user has the name; otherwise
-- it returns 0, changes that user's is_admin alone, and the table stays valid.
pub user_set_admin_lem :
    (s : Users) (username : Str) (is_admin : Bool)
    → IsUsers s
    → (IsNew s username × (user_set_admin s username is_admin ≡ (s, ℤ.negsuc 0)))
      ⊎ ((i : ℕ) × (t : Users) × (user_set_admin s username is_admin ≡ (t, ℤ.pos 0))
          × (is_named username (s.users i) ≡ true)
          × (t.users i ≡ record (s.users i) { is_admin = is_admin })
          × ((j : ℕ) → j ≢ i → t.users j ≡ s.users j)
          × IsUsers t)
unfolding user_set_admin
user_set_admin_lem s username is_admin v =
    elim (find_slot_lem (is_named username) s.users user_max 0) [
      | inl h ↦ inl (λ j lt. h.1 j (omega arith) (omega arith), ground (arith, h.0))
      | inr (i, run, f) ↦
          (let u : User = record (s.users i) { is_admin = is_admin } in
            let us : ℕ → User = update s.users i u in
            inr (
              i,
              record s { users = us },
              ground (arith, run),
              f.passes,
              ground arith,
              λ j ne. ground arith,
              same-IsUsers s us v
                  (λ j. elim (ℕ_discrete j i) [
                    | yes same ↦ ground (arith, same)
                    | no other ↦ ground arith
                  ])
                  (λ j. elim (ℕ_discrete j i) [
                    | yes same ↦ ground (arith, same)
                    | no other ↦ ground arith
                  ])
                  (λ j. elim (ℕ_discrete j i) [
                    | yes same ↦ ground (arith, same)
                    | no other ↦ ground arith
                  ]),
            ))
    ]
