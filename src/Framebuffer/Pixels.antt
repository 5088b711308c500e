-- ===== src/Framebuffer/Pixels.antt =====
-- The offsets of the pixels in the back buffer.
use innovati_os.Base.{ℕ, suc, ◌+◌, ◌*◌, ◌≤◌, ◌<◌, ◌≡◌, ◌≢◌, ap, arith, dec_lt}
use native.Mathlib.Nat.{mul-le-mul_right, mul-le-mul}
use innovati_os.Framebuffer.{offset, fb_max_width, fb_max_height}

-- A row behind another one begins where that one has ended, or later.
rows_apart : (p r r' : ℕ) → r < r' → r * p + p ≤ r' * p
rows_apart p r r' lt = omega (arith, mul-le-mul_right {m = suc r} {n = r'} p lt)

pub offset-ne :
    (w r c r' c' : ℕ)
    → c < w
    → c' < w
    → ((r ≡ r') → c ≢ c')
    → offset (w * 4) r c ≢ offset (w * 4) r' c'
unfolding offset
offset-ne w r c r' c' lc lc' ne e = elim (dec_lt r r') [
  | yes before ↦ omega (arith, e, rows_apart (w * 4) r r' before)
  | no not_before ↦ elim (dec_lt r' r) [
    | yes behind ↦ omega (arith, e, rows_apart (w * 4) r' r behind)
    | no not_behind ↦
        (let same : r ≡ r' = omega arith in ne same (omega (arith, e, ap (λ x. x * (w * 4)) same)))
  ]
]

pub offset-below :
    (w h r c : ℕ)
    → w ≤ fb_max_width
    → h ≤ fb_max_height
    → c < w
    → r < h
    → offset (w * 4) r c + 4 ≤ fb_max_width * fb_max_height * 4
unfolding offset
offset-below w h r c lw lh lc lr =
    let rows = rows_apart (w * 4) r h lr in
    let all : h * (w * 4) ≤ fb_max_height * (fb_max_width * 4) =
      mul-le-mul {m₂ = fb_max_width * 4} lh (omega (arith, lw)) in
    omega (arith, rows, all)
