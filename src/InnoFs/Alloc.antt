-- ===== src/InnoFs/Alloc.antt =====
-- Taking and returning sectors.
use innovati_os.Base.{
  ℕ, zero, suc, ◌+◌, ◌*◌, ◌/◌, ◌%◌, ◌^◌, ◌≤◌, ◌<◌, ◌≡◌, ◌≢◌, refl, ap, ◌∙◌, ◌⊎◌, inl, inr, ◌==◌,
  if◌then◌else◌, update, arith, ℕ_discrete, test_bit, u32,
}
use mathlib.Core.Path.{ap₂}
use innovati_os.InnoFs.{Disk, sector_size, mark, alloc_from}
use innovati_os.InnoFs.Scan.{IsSector, bit_at, find_byte_lem}

-- The bit of sector `n` in the bitmap that begins at sector `start`.
abbrev pub in_use : Disk → ℕ → ℕ → ℕ
in_use disk start n = bit_at (disk (start + n / 4096)) (n % 4096)

-- The bit of sector `n` alone became `v`, and only a sector of the bitmap was written.
pub record SetsBit (disk : Disk) (start n v : ℕ) (disk' : Disk) : Type 0 where
  pub bit : in_use disk' start n ≡ v
  pub others : (m : ℕ) → m ≢ n → in_use disk' start m ≡ in_use disk start m
  pub elsewhere : (a : ℕ) → a ≢ start + n / 4096 → disk' a ≡ disk a
  pub bytes : (a : ℕ) → IsSector (disk' a)

-- Overwriting the byte that holds the bit of sector `n`.
pub write_bit-SetsBit :
    (disk : Disk) (start n v b : ℕ)
    → ((a : ℕ) → IsSector (disk a))
    → b < 256
    → ((j : ℕ)
        → j < 8
        → test_bit b j
          ≡ (if j == n % 8 then v else test_bit (disk (start + n / 4096) (n % 4096 / 8)) j))
    → SetsBit disk start n v
        (update disk (start + n / 4096) (update (disk (start + n / 4096)) (n % 4096 / 8) b))
write_bit-SetsBit disk start n v b bytes small law = record {
  bit = (let here : n % 4096 % 8 ≡ n % 8 = omega arith in ground (arith, here, law (n % 8)));
  others = λ m ne. elim (ℕ_discrete (m / 4096) (n / 4096)) [
    | no far ↦ ground arith
    | yes near ↦ elim (ℕ_discrete (m % 4096 / 8) (n % 4096 / 8)) [
      | no off ↦ ground arith
      | yes same ↦
          (let differs : m % 4096 % 8 ≢ n % 8 = λ e. ne (omega arith) in
            ground (arith, near, same, differs, law (m % 4096 % 8)))
    ]
  ];
  elsewhere = λ a ne. ground arith;
  bytes = λ a x. ground (arith, bytes a x, bytes (start + n / 4096) x);
}

pub alloc_from_lem :
    (disk : Disk) (start left i : ℕ)
    → ((a : ℕ) → IsSector (disk a))
    → start + (i + left) ≤ 2 ^ 32
    → ((alloc_from disk start left i ≡ (disk, 0))
        × ((n : ℕ) → i * 4096 ≤ n → n < (i + left) * 4096 → in_use disk start n ≡ 1))
      ⊎ ((s : ℕ) × (alloc_from disk start left i
            ≡ (mark disk (start + s / 4096) (s % 4096 / 8) (s % 8), u32 s))
          × (i * 4096 ≤ s)
          × (s < (i + left) * 4096)
          × (in_use disk start s ≡ 0)
          × ((n : ℕ) → i * 4096 ≤ n → n < s → in_use disk start n ≡ 1))
unfolding alloc_from
alloc_from_lem disk start zero i v fits = inl (refl, λ n lo hi. absurd (omega arith))
alloc_from_lem disk start (suc left) i v fits =
    let at : u32 (start + i) ≡ start + i = omega (arith, fits) in
    elim (find_byte_lem (disk (start + i)) sector_size 0 (v (start + i))) [
      | inr (k, j, run, lo, hi, small, free, first) ↦
          (let s : ℕ = i * 4096 + (k * 8 + j) in
            let sector : s / 4096 ≡ i = omega (arith, hi, small) in
            let rest : s % 4096 ≡ k * 8 + j = omega (arith, hi, small) in
            let byte : s % 4096 / 8 ≡ k = omega (arith, hi, small) in
            let bit : s % 8 ≡ j = omega (arith, hi, small) in
            let number : i * sector_size * 8 + k * 8 + j ≡ s = omega arith in
            inr (
              s,
              ground (arith, at, run, sector, byte, bit, number),
              omega arith,
              omega (arith, hi, small),
              ap₂ (λ a b. bit_at (disk (start + a)) b) sector rest ∙ free,
              λ n above below.
                  (let same : n / 4096 ≡ i = omega (arith, hi, small) in
                    ap (λ a. bit_at (disk (start + a)) (n % 4096)) same
                    ∙ first (n % 4096) (omega arith) (omega arith)),
            ))
      | inl h ↦ elim (alloc_from_lem disk start left (i + 1) v (omega (arith, fits))) [
        | inl g ↦ inl (
          ground (arith, at, h.0, g.0),
          λ n lo hi. elim (ℕ_discrete (n / 4096) i) [
            | yes same ↦
                ap (λ a. bit_at (disk (start + a)) (n % 4096)) same
                ∙ h.1 (n % 4096) (omega arith) (omega arith)
            | no other ↦ g.1 n (omega arith) (omega arith)
          ],
        )
        | inr (s, run, lo, hi, free, first) ↦ inr (
          s,
          ground (arith, at, h.0, run),
          omega (arith, lo),
          omega (arith, hi),
          free,
          λ n above below. elim (ℕ_discrete (n / 4096) i) [
            | yes same ↦
                ap (λ a. bit_at (disk (start + a)) (n % 4096)) same
                ∙ h.1 (n % 4096) (omega arith) (omega arith)
            | no other ↦ first n (omega arith) below
          ],
        )
      ]
    ]
