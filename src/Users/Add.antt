-- ===== src/Users/Add.antt =====
-- The invariant of the table, and what adding a user does.
use innovati_os.Base.{
  ℕ, zero, suc, ◌≤◌, ◌<◌, ◌≡◌, ◌≢◌, refl, ap, ◌⊎◌, inl, inr, Bool, true, false, Option, none, some,
  [], ◌∷◌, arith, take, length, ℕ_discrete, dec_lt,
}
use innovati_os.Strings.{ℤ}
use innovati_os.Vfs.{Str, same_text}
use innovati_os.Base.{find_slot, IsFirst, find_slot_lem}
use innovati_os.Users.{
  User, Users, user_max, user_name_max, is_named, is_unused, new_user, fill_slot, add_user,
  user_add, no_users, root_name, root_password, guest_name, user_init,
}
use innovati_os.Users.Find.{count_used, count_used_full, count_used-update, same_text_sym}

-- The count is right, user ids are given out in order, and no two users have the same id or the
-- same name.
pub record IsUsers (s : Users) : Type 0 where
  pub counted : s.user_count ≡ count_used s.users user_max
  pub numbered : s.next_uid ≡ s.user_count
  pub old_uid : (i : ℕ) → i < user_max → (s.users i).used ≡ true → (s.users i).uid < s.next_uid
  pub uid_once :
      (i j : ℕ)
      → i < user_max
      → j < user_max
      → (s.users i).used ≡ true
      → (s.users j).used ≡ true
      → (s.users i).uid ≡ (s.users j).uid
      → i ≡ j
  pub name_once :
      (i j : ℕ)
      → i < user_max
      → j < user_max
      → (s.users i).used ≡ true
      → (s.users j).used ≡ true
      → same_text (s.users i).username (s.users j).username ≡ true
      → i ≡ j

-- No user has the name.
abbrev pub IsNew : Users → Str → Type 0
IsNew s name = (j : ℕ) → j < user_max → is_named name (s.users j) ≡ false

-- The user `u` stands in a slot that was unused, and all else is as before.
pub record Adds (s : Users) (u : User) (t : Users) (i : ℕ) : Type 0 where
  pub within : i < user_max
  pub was_unused : (s.users i).used ≡ false
  pub now : t.users i ≡ u
  pub others : (j : ℕ) → j ≢ i → t.users j ≡ s.users j
  pub valid : IsUsers t

fill_slot-Adds :
    (s : Users) (u : User) (i : ℕ)
    → IsUsers s
    → s.user_count < user_max
    → i < user_max
    → (s.users i).used ≡ false
    → u.used ≡ true
    → u.uid ≡ s.next_uid
    → IsNew s u.username
    → Adds s u (fill_slot s i u) i
unfolding fill_slot
fill_slot-Adds s u i v room within free used numbered new = record {
  within = within;
  was_unused = free;
  now = ground arith;
  others = λ j ne. ground arith;
  valid = record {
    counted = omega (arith, v.counted, count_used-update s.users i u user_max within free used);
    numbered = omega (arith, v.numbered);
    old_uid = λ j lt inuse. elim (ℕ_discrete j i) [
      | yes same ↦ ground (arith, same, numbered, v.numbered)
      | no other ↦ ground (arith, inuse, v.old_uid j lt, v.numbered)
    ];
    uid_once = λ j k jn kn uj uk e. elim (ℕ_discrete j i) [
      | yes same ↦ elim (ℕ_discrete k i) [
        | yes both ↦ omega arith
        | no other ↦ absurd (ground (arith, uk, e, numbered, v.old_uid k kn))
      ]
      | no other ↦ elim (ℕ_discrete k i) [
        | yes same ↦ absurd (ground (arith, uj, e, numbered, v.old_uid j jn))
        | no both ↦
            v.uid_once j k jn kn (ground (arith, uj)) (ground (arith, uk)) (ground (arith, e))
      ]
    ];
    name_once = λ j k jn kn uj uk e. elim (ℕ_discrete j i) [
      | yes same ↦ elim (ℕ_discrete k i) [
        | yes both ↦ omega arith
        | no other ↦
            absurd (ground (arith, uk, e, new k kn, same_text_sym u.username (s.users k).username))
      ]
      | no other ↦ elim (ℕ_discrete k i) [
        | yes same ↦ absurd (ground (arith, uj, e, new j jn))
        | no both ↦
            v.name_once j k jn kn (ground (arith, uj)) (ground (arith, uk)) (ground (arith, e))
      ]
    ];
  };
}

pub take_short : (n : ℕ) (s : Str) → length s ≤ n → take n s ≡ s
take_short zero [] le = refl
take_short zero (c ∷ s) le = absurd (omega arith)
take_short (suc n) [] le = refl
take_short (suc n) (c ∷ s) le = ap (λ t. c ∷ t) (take_short n s (omega arith))

-- A table with fewer than 16 users has an unused slot.
unused_slot :
    (s : Users)
    → IsUsers s
    → s.user_count < user_max
    → (i : ℕ) × (find_slot is_unused s.users user_max 0 ≡ some i)
      × IsFirst is_unused s.users user_max 0 i
unused_slot s v room = elim (find_slot_lem is_unused s.users user_max 0) [
  | inr found ↦ found
  | inl h ↦ absurd (
      omega (
        arith,
        v.counted,
        count_used_full s.users user_max
            (λ j lt. ground (arith, h.1 j (omega arith) (omega arith))),
      ))
]

-- On a valid table and for a name of fewer than 32 characters, user_add returns -1 without a
-- change if 16 users exist, -2 without a change if the name is taken, and otherwise 0, with the
-- new user in a slot that was unused, all other slots as before, and the table valid: ids and
-- names are used once and the count is right.
pub user_add_lem :
    (s : Users) (username password : Str) (is_admin : Bool)
    → IsUsers s
    → length username < user_name_max
    → ((user_max ≤ s.user_count) × (user_add s username password is_admin ≡ (s, ℤ.negsuc 0)))
      ⊎ ((((k : ℕ) × (k < user_max) × (is_named username (s.users k) ≡ true))
            × (user_add s username password is_admin ≡ (s, ℤ.negsuc 1)))
          ⊎ (IsNew s username
              × ((i : ℕ) × (t : Users) × (user_add s username password is_admin ≡ (t, ℤ.pos 0))
                  × Adds s (new_user s username password is_admin) t i)))
unfolding user_add add_user
user_add_lem s username password is_admin v short =
    let u : User = new_user s username password is_admin in
    let whole : u.username ≡ username = take_short 31 username (omega arith) in
    elim (dec_lt s.user_count user_max) [
      | no full ↦ inl (omega arith, ground arith)
      | yes room ↦ elim (find_slot_lem (is_named username) s.users user_max 0) [
        | inr (k, run, f) ↦ inr (inl ((k, omega (arith, f.within), f.passes), ground (arith, run)))
        | inl h ↦
            (let new : IsNew s username = λ j lt. h.1 j (omega arith) (omega arith) in
              let (i, run, f) = unused_slot s v room in
              inr (
                inr (
                  new,
                  (
                    i,
                    fill_slot s i u,
                    ground (arith, h.0, run),
                    fill_slot-Adds s u i v room (omega (arith, f.within)) (ground (arith, f.passes))
                        refl refl (rw whole new),
                  ),
                )))
      ]
    ]

pub user_add-IsUsers :
    (s : Users) (username password : Str) (is_admin : Bool)
    → IsUsers s
    → length username < user_name_max
    → IsUsers (user_add s username password is_admin).0
user_add-IsUsers s username password is_admin v short =
    elim (user_add_lem s username password is_admin v short) [
      | inl h ↦ rw h.1 v
      | inr (inl h) ↦ rw h.1 v
      | inr (inr (new, (i, t, run, a))) ↦ rw run a.valid
    ]

pub no_users-IsUsers : IsUsers no_users
unfolding count_used
no_users-IsUsers = record {
  counted = refl;
  numbered = refl;
  old_uid = λ i lt inuse. absurd (ground (arith, inuse));
  uid_once = λ i j il jl ui uj e. absurd (ground (arith, ui));
  name_once = λ i j il jl ui uj e. absurd (ground (arith, ui));
}

-- If the table that is loaded, if any, is valid, user_init leaves a valid table.
pub user_init-IsUsers :
    (loaded : Option Users)
    → ((s : Users) → loaded ≡ some s → IsUsers s)
    → IsUsers (user_init loaded)
unfolding user_init
user_init-IsUsers (some s) good = good s refl
user_init-IsUsers none good =
    let s : Users = (user_add no_users root_name root_password true).0 in
    let v : IsUsers s =
      user_add-IsUsers no_users root_name root_password true no_users-IsUsers (omega arith) in
    user_add-IsUsers s guest_name guest_name false v (omega arith)
