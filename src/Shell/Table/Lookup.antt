-- ===== src/Shell/Table/Lookup.antt =====
-- The table as a map from names to values.
use innovati_os.Base.{
  ℕ, ◌<◌, ◌≡◌, refl, ap, subst, ◌∙◌, ◌⊎◌, inl, inr, true, false, none, some, update, arith, length,
  take, find_slot_lem,
}
use innovati_os.Vfs.{Str}
use innovati_os.Vfs.Render.{take_all}
use innovati_os.Shell.Text.{name_max, value_max, sh_copy}
use innovati_os.Shell.Table.{
  Pair, Table, table_size, has_name, is_free, Reply, add_pair, put_pair, cmd_remove, lookup,
}
use innovati_os.Shell.Table.Write.{
  IsTable, Binds, write-Binds, find_name, others_differ, remove-Binds,
}

-- On a table in which no name is used twice, for a name of fewer than 16 characters: either
-- setting it answers that the table is full, changes nothing, and it is so and the name is not in
-- it; or afterwards the name, and no other, has the new value, cut to 63 characters, and no name
-- is used twice.
pub put_pair_lem :
    (t : Table) (name value : Str)
    → IsTable t
    → length name < name_max
    → ((put_pair t name value ≡ (t, Reply.full))
        × (lookup t name ≡ none)
        × ((j : ℕ) → j < table_size → (t j).used ≡ true))
      ⊎ ((t' : Table) × (put_pair t name value ≡ (t', Reply.ok))
          × Binds t name (some (sh_copy value value_max)) t')
unfolding put_pair add_pair lookup sh_copy
put_pair_lem t name value v short =
    let whole : take 15 name ≡ name = take_all 15 name (omega arith) in
    elim (find_name t name) [
      | inr (i, run, lt, used, named) ↦
          (let p : Pair = record {
            name = (t i).name;
            value = sh_copy value value_max;
            used = (t i).used;
          } in
            inr (
              update t i p,
              ground (arith, run),
              subst (λ n. Binds t n (some p.value) (update t i p)) named
                  (write-Binds t i p v lt used (inr refl) (others_differ t i v lt used)),
            ))
      | inl h ↦ elim (find_slot_lem is_free t table_size 0) [
        | inl g ↦ inl (ground (arith, h.0, g.0), ground (arith, h.0), λ j lt. ground (arith, g.1 j))
        | inr (i, run, f) ↦
            (let p : Pair = record {
              name = take 15 name;
              value = sh_copy value value_max;
              used = true;
            } in
              let pass = f.passes in
              inr (
                update t i p,
                ground (arith, h.0, run),
                subst (λ n. Binds t n (some p.value) (update t i p)) whole
                    (write-Binds t i p v (omega (arith, f.within)) refl (inl (ground arith))
                      (λ j lt ne. ap (λ n. has_name n (t j)) whole ∙ h.1 j lt)),
              ))
      ]
    ]

-- On such a table, unset and unalias of a name answer that there is none, change nothing, and it
-- is so; or afterwards the name, and no other, is gone, and no name is used twice.
pub cmd_remove_lem :
    (t : Table) (name : Str)
    → IsTable t
    → ((cmd_remove t name ≡ (t, Reply.no_such)) × (lookup t name ≡ none))
      ⊎ ((t' : Table) × (cmd_remove t name ≡ (t', Reply.ok)) × Binds t name none t')
unfolding cmd_remove lookup
cmd_remove_lem t name v = elim (find_name t name) [
  | inl h ↦ inl (ground (arith, h.0), ground (arith, h.0))
  | inr (i, run, lt, used, named) ↦
      (let p : Pair = record { name = (t i).name; value = (t i).value; used = false } in
        inr (
          update t i p,
          ground (arith, run),
          subst (λ n. Binds t n none (update t i p)) named (remove-Binds t i p v lt used refl),
        ))
]
