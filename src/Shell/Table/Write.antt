-- ===== src/Shell/Table/Write.antt =====
-- What a change of one slot does to the map from names to values.
use innovati_os.Base.{
  ℕ, ◌<◌, ◌≡◌, ◌≢◌, refl, ap, sym, ◌∙◌, ◌⊎◌, inl, inr, true, false, Bool-cases, Option, none, some,
  [], ◌∷◌, update, arith, ℕ_discrete, find_slot, find_slot_lem, find_only, find_none,
  find_slot_same,
}
use innovati_os.Vfs.{Str}
use innovati_os.Shell.Text.{sh_streq}
use innovati_os.Shell.Table.{Pair, Table, table_size, has_name, lookup}

pub sh_streq_same : (a : Str) → sh_streq a a ≡ true
unfolding sh_streq
sh_streq_same [] = refl
sh_streq_same (x ∷ a) = ground (arith, sh_streq_same a)

pub sh_streq_equal : (a b : Str) → sh_streq a b ≡ true → a ≡ b
unfolding sh_streq
sh_streq_equal [] [] e = refl
sh_streq_equal [] (y ∷ b) e = absurd (ground (arith, e))
sh_streq_equal (x ∷ a) [] e = absurd (ground (arith, e))
sh_streq_equal (x ∷ a) (y ∷ b) e = elim (ℕ_discrete x y) [
  | yes same ↦ ground (arith, e, same, sh_streq_equal a b)
  | no other ↦ absurd (ground (arith, e, other))
]

pub sh_streq_other : (a b : Str) → a ≢ b → sh_streq a b ≡ false
sh_streq_other a b other = elim (Bool-cases (sh_streq a b)) [
  | inl e ↦ absurd (other (sh_streq_equal a b e))
  | inr e ↦ e
]

-- No two slots in use have the same name.
abbrev pub IsTable : Table → Type 0
IsTable t =
    (i j : ℕ)
    → i < table_size
    → j < table_size
    → (t i).used ≡ true
    → (t j).used ≡ true
    → (t i).name ≡ (t j).name
    → i ≡ j

-- The name alone has a new value, or none.
pub record Binds (t : Table) (name : Str) (value : Option Str) (t' : Table) : Type 0 where
  pub bound : lookup t' name ≡ value
  pub others : (n : Str) → n ≢ name → lookup t' n ≡ lookup t n
  pub table : IsTable t'

-- A slot's pair with a name that no other slot in use has.
pub write-Binds :
    (t : Table) (i : ℕ) (p : Pair)
    → IsTable t
    → i < table_size
    → p.used ≡ true
    → (((t i).used ≡ false) ⊎ ((t i).name ≡ p.name))
    → ((j : ℕ) → j < table_size → j ≢ i → has_name p.name (t j) ≡ false)
    → Binds t p.name (some p.value) (update t i p)
unfolding lookup
write-Binds t i p v lt used old new =
    let mine : has_name p.name (update t i p i) ≡ true =
      ground (arith, used, sh_streq_same p.name) in
    let others : (j : ℕ) → j < table_size → j ≢ i → has_name p.name (update t i p j) ≡ false =
      λ j jl ne. ground (arith, new j jl) in
    let found : find_slot (has_name p.name) (update t i p) table_size 0 ≡ some i =
      find_only (has_name p.name) (update t i p) table_size i lt mine others in
    record {
      bound = ground (arith, found);
      others = λ n ne. same n ne;
      table = λ j k jl kl uj uk e. elim (ℕ_discrete j i) [
        | yes ji ↦ elim (ℕ_discrete k i) [
          | yes ki ↦ omega arith
          | no ko ↦ absurd (clash k kl ko uk (sym e ∙ ap (λ x. (update t i p x).name) ji ∙ here))
        ]
        | no jo ↦ elim (ℕ_discrete k i) [
          | yes ki ↦ absurd (clash j jl jo uj (e ∙ ap (λ x. (update t i p x).name) ki ∙ here))
          | no ko ↦
              v j k jl kl (sym (off j jo) ∙ uj) (sym (off k ko) ∙ uk)
                (sym (off_name j jo) ∙ e ∙ off_name k ko)
        ]
      ];
    }
  where
    here : (update t i p i).name ≡ p.name
    here = ground arith

    off : (j : ℕ) → j ≢ i → (update t i p j).used ≡ (t j).used
    off j ne = ground arith

    off_name : (j : ℕ) → j ≢ i → (update t i p j).name ≡ (t j).name
    off_name j ne = ground arith

    clash :
        (j : ℕ)
        → j < table_size
        → j ≢ i
        → (update t i p j).used ≡ true
        → (update t i p j).name ≢ p.name
    clash j jl ne use_j e =
        let equal : sh_streq (t j).name p.name ≡ true =
          ap (λ x. sh_streq x p.name) (sym (off_name j ne) ∙ e) ∙ sh_streq_same p.name in
        ground (arith, new j jl ne, equal, use_j)

    same_test : (n : Str) → n ≢ p.name → (j : ℕ) → has_name n (update t i p j) ≡ has_name n (t j)
    same_test n ne j = elim (ℕ_discrete j i) [
      | no other ↦ ground arith
      | yes ji ↦
          (let fresh : sh_streq p.name n ≡ false = sh_streq_other p.name n (λ e. ne (sym e)) in
            let before : has_name n (t i) ≡ false = elim old [
              | inl free ↦ ground (arith, free)
              | inr name ↦
                  (let differs : sh_streq (t i).name n ≡ false =
                      ap (λ x. sh_streq x n) name ∙ fresh in
                    ground (arith, differs))
            ] in
            ground (arith, fresh, before, ji))
    ]

    same : (n : Str) → n ≢ p.name → lookup (update t i p) n ≡ lookup t n
    same n ne =
        let search : find_slot (has_name n) (update t i p) table_size 0
            ≡ find_slot (has_name n) t table_size 0 =
          find_slot_same (has_name n) (has_name n) (update t i p) t table_size 0
            (λ j lo hi. same_test n ne j) in
        elim (find_slot_lem (has_name n) t table_size 0) [
          | inl h ↦ ground (arith, search, h.0)
          | inr (k, run, f) ↦
              (let not_i : k ≢ i = λ ki. absurd (
                  ground (
                    arith,
                    same_test n ne k,
                    f.passes,
                    ki,
                    used,
                    sh_streq_other p.name n (λ e. ne (sym e)),
                  )) in
                ground (arith, search, run, not_i))
        ]

pub find_name :
    (t : Table) (name : Str)
    → ((find_slot (has_name name) t table_size 0 ≡ none)
        × ((j : ℕ) → j < table_size → has_name name (t j) ≡ false))
      ⊎ ((i : ℕ) × (find_slot (has_name name) t table_size 0 ≡ some i)
          × (i < table_size)
          × ((t i).used ≡ true)
          × ((t i).name ≡ name))
find_name t name = elim (find_slot_lem (has_name name) t table_size 0) [
  | inl h ↦ inl (h.0, λ j lt. h.1 j (omega arith) (omega arith))
  | inr (i, run, f) ↦
      (let pass = f.passes in
        inr (
          i,
          run,
          omega (arith, f.within),
          ground arith,
          sh_streq_equal (t i).name name (ground arith),
        ))
]

-- No other slot in use has the name of slot `i`.
pub others_differ :
    (t : Table) (i : ℕ)
    → IsTable t
    → i < table_size
    → (t i).used ≡ true
    → (j : ℕ) → j < table_size
    → j ≢ i
    → has_name (t i).name (t j) ≡ false
others_differ t i v lt used j jl ne = elim (Bool-cases (has_name (t i).name (t j))) [
  | inr e ↦ e
  | inl e ↦
      absurd
        (ne (v j i jl lt (ground arith) used (sh_streq_equal (t j).name (t i).name (ground arith))))
]

pub remove-Binds :
    (t : Table) (i : ℕ) (p : Pair)
    → IsTable t
    → i < table_size
    → (t i).used ≡ true
    → p.used ≡ false
    → Binds t (t i).name none (update t i p)
unfolding lookup
remove-Binds t i p v lt used gone =
    let missing : find_slot (has_name (t i).name) (update t i p) table_size 0 ≡ none =
      find_none (has_name (t i).name) (update t i p) table_size (λ j jl. elim (ℕ_discrete j i) [
        | yes same ↦ ground (arith, gone, same)
        | no other ↦ ground (arith, others_differ t i v lt used j jl other)
      ]) in
    record {
      bound = ground (arith, missing);
      others = λ n ne. same n ne;
      table = λ j k jl kl uj uk e. elim (ℕ_discrete j i) [
        | yes ji ↦ absurd (ground (arith, uj, gone, ji))
        | no jo ↦ elim (ℕ_discrete k i) [
          | yes ki ↦ absurd (ground (arith, uk, gone, ki))
          | no ko ↦ v j k jl kl (ground (arith, uj)) (ground (arith, uk)) (ground (arith, e))
        ]
      ];
    }
  where
    same_test :
        (n : Str) → n ≢ (t i).name → (j : ℕ) → has_name n (update t i p j) ≡ has_name n (t j)
    same_test n ne j = elim (ℕ_discrete j i) [
      | no other ↦ ground arith
      | yes ji ↦ ground (arith, gone, used, ji, sh_streq_other (t i).name n (λ e. ne (sym e)))
    ]

    same : (n : Str) → n ≢ (t i).name → lookup (update t i p) n ≡ lookup t n
    same n ne =
        let search : find_slot (has_name n) (update t i p) table_size 0
            ≡ find_slot (has_name n) t table_size 0 =
          find_slot_same (has_name n) (has_name n) (update t i p) t table_size 0
            (λ j lo hi. same_test n ne j) in
        elim (find_name t n) [
          | inl h ↦ ground (arith, search, h.0)
          | inr (k, run, kl, uk, named) ↦
              (let not_i : k ≢ i = λ ki. ne (sym named ∙ ap (λ x. (t x).name) ki) in
                ground (arith, search, run, not_i))
        ]
