-- ===== src/Strings/Copy.antt =====
-- Copying and filling blocks of memory.
use innovati_os.Base.{
  ℕ, zero, suc, ◌+◌, ◌-◌, ◌≤◌, ◌≡◌, ◌⊎◌, inl, Bool, ◌&&◌, ltb, leb, if◌then◌else◌, update, u8,
  arith, ℕ_discrete, dec_lt,
}
use innovati_os.Strings.{Bytes, copy_up, copy_down, fill, k_memcpy, k_memset, k_memmove}

-- `a` is one of the `n` addresses from `p` on.
abbrev pub inside : ℕ → ℕ → ℕ → Bool
inside p n a = leb p a && ltb a (p + n)

copy_up_lem :
    (m : Bytes) (dst src left i a : ℕ)
    → (dst ≤ src) ⊎ (src + i + left ≤ dst)
    → copy_up m dst src left i a ≡ (if inside (dst + i) left a then m (src + (a - dst)) else m a)
unfolding copy_up
copy_up_lem m dst src zero i a order = ground arith
copy_up_lem m dst src (suc left) i a order =
    let ih =
      copy_up_lem (update m (dst + i) (m (src + i))) dst src left (i + 1) a
        (omega (arith, order)) in
    elim (ℕ_discrete a (dst + i)) [
      | yes here ↦
          (let at : src + (a - dst) ≡ src + i = omega arith in ground (arith, ih, at, order))
      | no other ↦ ground (arith, ih, order)
    ]

copy_down_lem :
    (m : Bytes) (dst src n a : ℕ)
    → src ≤ dst
    → copy_down m dst src n a ≡ (if inside dst n a then m (src + (a - dst)) else m a)
unfolding copy_down
copy_down_lem m dst src zero a order = ground arith
copy_down_lem m dst src (suc i) a order =
    let ih = copy_down_lem (update m (dst + i) (m (src + i))) dst src i a order in
    elim (ℕ_discrete a (dst + i)) [
      | yes here ↦ (let at : src + (a - dst) ≡ src + i = omega arith in ground (arith, ih, at))
      | no other ↦ ground (arith, ih)
    ]

pub fill_lem :
    (m : Bytes) (dst v left i a : ℕ)
    → fill m dst v left i a ≡ (if inside (dst + i) left a then v else m a)
unfolding fill
fill_lem m dst v zero i a = ground arith
fill_lem m dst v (suc left) i a =
    let ih = fill_lem (update m (dst + i) v) dst v left (i + 1) a in
    elim (ℕ_discrete a (dst + i)) [ yes here ↦ ground (arith, ih) | no other ↦ ground (arith, ih) ]

-- k_memmove leaves at each address of the destination the byte that the source held before the
-- call, and every other byte as it was, however the two ranges meet.
pub k_memmove_lem :
    (m : Bytes) (dst src n a : ℕ)
    → k_memmove m dst src n a ≡ (if inside dst n a then m (src + (a - dst)) else m a)
unfolding k_memmove
k_memmove_lem m dst src n a = elim (ℕ_discrete dst src) [
  | yes same ↦ elim (dec_lt a dst) [
    | yes below ↦ ground arith
    | no above ↦ (let at : src + (a - dst) ≡ a = omega arith in ground (arith, at))
  ]
  | no apart ↦ elim (dec_lt dst src) [
    | yes lower ↦ ground (arith, copy_up_lem m dst src n 0 a (inl (omega arith)))
    | no higher ↦ ground (arith, copy_down_lem m dst src n a (omega arith))
  ]
]

-- k_memcpy does what k_memmove does if the destination begins at or below the source or behind
-- its end.
pub k_memcpy_lem :
    (m : Bytes) (dst src n a : ℕ)
    → (dst ≤ src) ⊎ (src + n ≤ dst)
    → k_memcpy m dst src n a ≡ k_memmove m dst src n a
unfolding k_memcpy
k_memcpy_lem m dst src n a order =
    ground (arith, copy_up_lem m dst src n 0 a (omega (arith, order)), k_memmove_lem m dst src n a)

pub k_memset_lem :
    (m : Bytes) (dst val n a : ℕ)
    → k_memset m dst val n a ≡ (if inside dst n a then u8 val else m a)
unfolding k_memset
k_memset_lem m dst val n a = ground (arith, fill_lem m dst (u8 val) n 0 a)
