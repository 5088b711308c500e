-- ===== src/Shell/Expand/Full.antt =====
-- The line with its variables replaced, and the loop that writes it.
use innovati_os.Base.{
  ℕ, zero, suc, ◌-◌, ◌≤◌, ◌<◌, ◌≡◌, refl, ap, sym, ◌∙◌, true, false, Bool-cases, inl, inr, some, [],
  ◌∷◌, ◌++◌, arith, length, take,
}
use innovati_os.Vfs.{Str}
use innovati_os.Shell.Expand.{Env, is_var_start, name_end, value_of, expand}

-- A line and what it becomes when its variables are replaced, however long that is.
pub data Expands (env : Env) : Str → Str → Type 0 where
  at_end : Expands env [] []
  plain :
      {c : ℕ} {s out : Str}
      → is_var_start c s ≡ false
      → Expands env s out
      → Expands env (c ∷ s) (c ∷ out)
  variable :
      {c : ℕ} {s out : Str}
      → is_var_start c s ≡ true
      → Expands env (name_end s).1 out
      → Expands env (c ∷ s) (value_of env s (name_end s).0 ++ out)

length-name_end : (s : Str) → length (name_end s).1 ≤ length s
unfolding name_end
length-name_end [] = omega arith
length-name_end (c ∷ s) = ground (arith, length-name_end s)

take-append : (n : ℕ) (s t : Str) → take n (s ++ t) ≡ take n s ++ take (n - length (take n s)) t
take-append zero s t = refl
take-append (suc n) [] t =
    let same : suc n - 0 ≡ suc n = omega arith in ap (λ k. take k t) (sym same)
take-append (suc n) (c ∷ s) t =
    let less : suc n - suc (length (take n s)) ≡ n - length (take n s) = omega arith in
    ap (λ x. c ∷ x) (take-append n s t) ∙ ap (λ k. c ∷ (take n s ++ take k t)) (sym less)

pub expand_lem :
    (fuel : ℕ) (env : Env) (s : Str)
    → length s < fuel
    → (out : Str) × Expands env s out × ((room : ℕ) → expand fuel env s room ≡ some (take room out))
unfolding expand
expand_lem zero env s enough = absurd (omega arith)
expand_lem (suc fuel) env [] enough = ([], at_end, λ room. empty room)
  where
    empty : (room : ℕ) → expand (suc fuel) env [] room ≡ some (take room [])
    empty zero = refl
    empty (suc room) = refl
expand_lem (suc fuel) env (c ∷ s) enough = elim (Bool-cases (is_var_start c s)) [
  | inl e ↦
      (let value : Str = value_of env s (name_end s).0 in
        let (out, expands, run) =
          expand_lem fuel env (name_end s).1 (omega (arith, length-name_end s)) in
        (value ++ out, variable e expands, λ room. at_var e out run room))
  | inr e ↦
      (let (out, expands, run) = expand_lem fuel env s (omega arith) in
        (c ∷ out, plain e expands, λ room. at_char e out run room))
]
  where
    at_var :
        is_var_start c s ≡ true
        → (out : Str) → ((room : ℕ) → expand fuel env (name_end s).1 room ≡ some (take room out))
        → (room : ℕ)
        → expand (suc fuel) env (c ∷ s) room
          ≡ some (take room (value_of env s (name_end s).0 ++ out))
    at_var e out run zero = refl
    at_var e out run (suc room) =
        let value : Str = value_of env s (name_end s).0 in
        let cut : Str = take (suc room) value in
        let behind = run (suc room - length cut) in
        ground (arith, e, behind, take-append (suc room) value out)

    at_char :
        is_var_start c s ≡ false
        → (out : Str) → ((room : ℕ) → expand fuel env s room ≡ some (take room out))
        → (room : ℕ) → expand (suc fuel) env (c ∷ s) room ≡ some (take room (c ∷ out))
    at_char e out run zero = refl
    at_char e out run (suc room) = ground (arith, e, run room)
