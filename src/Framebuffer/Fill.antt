-- ===== src/Framebuffer/Fill.antt =====
-- What the drawing of pixels and rectangles writes.
use innovati_os.Base.{
  ℕ, zero, suc, ◌+◌, ◌-◌, ◌*◌, ◌^◌, ◌≤◌, ◌<◌, ◌≡◌, ◌≢◌, refl, sym, ap, ◌∙◌, Bool, ◌&&◌, ◌==◌, arith,
  ltb, leb, min, if◌then◌else◌, update, update_self, update_ne, ℕ_discrete, add64,
}
use innovati_os.Framebuffer.{
  Framebuffer, fb_init, offset, fill_cols, fill_rows, rounds, fb_fill_rect, fb_max_width,
  fb_max_height,
}
use innovati_os.Framebuffer.Pixels.{offset-ne}

-- The row and column lie in the rectangle.
unfoldable pub in_rect : ℕ → ℕ → ℕ → ℕ → ℕ → ℕ → Bool
in_rect x y w h c r = (leb x c && ltb c (x + w)) && (leb y r && ltb r (y + h))

fill_cols-inside :
    (back : ℕ → ℕ) (width row rgb left col c r : ℕ)
    → (0 < left → col + left ≤ width)
    → c < width
    → fill_cols back (width * 4) row rgb left col (offset (width * 4) r c) ≡ (
        if (r == row) && (leb col c && ltb c (col + left))
        then rgb
        else back (offset (width * 4) r c))
unfolding fill_cols
fill_cols-inside back width row rgb zero col c r fits lc = ground arith
fill_cols-inside back width row rgb (suc left) col c r fits lc =
    let whole : col + suc left ≤ width = fits (omega arith) in
    let o : ℕ = offset (width * 4) r c in
    let here : ℕ = offset (width * 4) row col in
    let ih =
      fill_cols-inside (update back here rgb) width row rgb left (col + 1) c r
        (λ some. omega (arith, whole)) lc in
    elim (ℕ_discrete r row) [
      | no other ↦
          (let apart : o ≢ here =
              offset-ne width r c row col lc (omega (arith, whole)) (λ e. absurd (other e)) in
            ground (arith, ih, other, update_ne back here rgb o apart))
      | yes same ↦ elim (ℕ_discrete c col) [
        | no beside ↦
            (let apart : o ≢ here =
                offset-ne width r c row col lc (omega (arith, whole)) (λ e. beside) in
              ground (arith, ih, same, beside, update_ne back here rgb o apart))
        | yes at_col ↦
            (let hit : o ≡ here =
                ap (λ k. offset (width * 4) k c) same ∙ ap (λ k. offset (width * 4) row k) at_col in
              let drawn : update back here rgb o ≡ rgb =
                ap (update back here rgb) hit ∙ update_self back here rgb in
              ground (arith, ih, same, at_col, drawn))
      ]
    ]

fill_cols-outside :
    (back : ℕ → ℕ) (width row rgb left col o : ℕ)
    → ((c : ℕ) → c < width → o ≢ offset (width * 4) row c)
    → (0 < left → col + left ≤ width)
    → fill_cols back (width * 4) row rgb left col o ≡ back o
unfolding fill_cols
fill_cols-outside back width row rgb zero col o off fits = refl
fill_cols-outside back width row rgb (suc left) col o off fits =
    let whole : col + suc left ≤ width = fits (omega arith) in
    fill_cols-outside (update back (offset (width * 4) row col) rgb) width row rgb left (col + 1) o
      off (omega arith)
    ∙ update_ne back (offset (width * 4) row col) rgb o (off col (omega (arith, whole)))

fill_rows-inside :
    (back : ℕ → ℕ) (width x cols rgb left row c r : ℕ)
    → (0 < cols → x + cols ≤ width)
    → c < width
    → fill_rows back (width * 4) x cols rgb left row (offset (width * 4) r c)
      ≡ (if in_rect x row cols left c r then rgb else back (offset (width * 4) r c))
unfolding fill_rows in_rect
fill_rows-inside back width x cols rgb zero row c r fits lc = ground arith
fill_rows-inside back width x cols rgb (suc left) row c r fits lc =
    let first = fill_cols-inside back width row rgb cols x c r fits lc in
    let ih =
      fill_rows-inside (fill_cols back (width * 4) row rgb cols x) width x cols rgb left (row + 1) c
        r fits lc in
    elim (ℕ_discrete r row) [
      | yes same ↦ ground (arith, ih, first, same)
      | no other ↦ ground (arith, ih, first, other)
    ]

fill_rows-outside :
    (back : ℕ → ℕ) (width height x cols rgb left row o : ℕ)
    → ((r c : ℕ) → r < height → c < width → o ≢ offset (width * 4) r c)
    → (0 < cols → x + cols ≤ width)
    → (0 < left → row + left ≤ height)
    → fill_rows back (width * 4) x cols rgb left row o ≡ back o
unfolding fill_rows
fill_rows-outside back width height x cols rgb zero row o off fits fit_rows = refl
fill_rows-outside back width height x cols rgb (suc left) row o off fits fit_rows =
    let whole : row + suc left ≤ height = fit_rows (omega arith) in
    fill_rows-outside (fill_cols back (width * 4) row rgb cols x) width height x cols rgb left
      (row + 1) o off fits (λ some. omega (arith, whole))
    ∙ fill_cols-outside back width row rgb cols x o (λ c lc. off row c (omega (arith, whole)) lc)
        fits

-- The buffer is that of the screen's size, which is not larger than the largest one.
pub record IsFramebuffer (s : Framebuffer) : Type 0 where
  pub pitch : s.back_pitch ≡ s.width * 4
  pub width : s.width ≤ fb_max_width
  pub height : s.height ≤ fb_max_height

-- No pixel of the screen is at the offset.
unfoldable pub IsOff : Framebuffer → ℕ → Type 0
IsOff s o = (r c : ℕ) → r < s.height → c < s.width → o ≢ offset s.back_pitch r c

same_rect :
    (s : Framebuffer) (x y w h c r : ℕ)
    → x + w < 2 ^ 64
    → y + h < 2 ^ 64
    → c < s.width
    → r < s.height
    → in_rect x y (rounds x (add64 x w) s.width) (rounds y (add64 y h) s.height) c r
      ≡ in_rect x y w h c r
unfolding in_rect rounds
same_rect s x y w h c r small_x small_y lc lr =
    let right : add64 x w ≡ x + w = omega arith in
    let bottom : add64 y h ≡ y + h = omega arith in
    let across : (leb x c && ltb c (x + (min (add64 x w) s.width - x)))
        ≡ (leb x c && ltb c (x + w)) =
      ground (arith, right, lc) in
    let down : (leb y r && ltb r (y + (min (add64 y h) s.height - y)))
        ≡ (leb y r && ltb r (y + h)) =
      ground (arith, bottom, lr) in
    ap (λ b. b && (leb y r && ltb r (y + (min (add64 y h) s.height - y)))) across
    ∙ ap (λ b. (leb x c && ltb c (x + w)) && b) down

-- On a frame buffer of at most 1920 by 1080 pixels whose rows follow each other, and for a
-- rectangle whose edges do not overflow 64 bits, fb_fill_rect gives every pixel of the screen in
-- the rectangle the color, also when the rectangle leaves the screen, keeps every other pixel of
-- the screen, writes at no other offset, and keeps the sizes.
pub fb_fill_rect_lem :
    (s : Framebuffer) (x y w h rgb : ℕ)
    → IsFramebuffer s
    → x + w < 2 ^ 64
    → y + h < 2 ^ 64
    → IsFramebuffer (fb_fill_rect s x y w h rgb)
      × ((fb_fill_rect s x y w h rgb).width ≡ s.width)
      × ((fb_fill_rect s x y w h rgb).height ≡ s.height)
      × ((fb_fill_rect s x y w h rgb).back_pitch ≡ s.back_pitch)
      × ((c r : ℕ)
          → c < s.width
          → r < s.height
          → (fb_fill_rect s x y w h rgb).back_buffer (offset s.back_pitch r c)
            ≡ (if in_rect x y w h c r then rgb else s.back_buffer (offset s.back_pitch r c)))
      × ((o : ℕ) → IsOff s o → (fb_fill_rect s x y w h rgb).back_buffer o ≡ s.back_buffer o)
unfolding fb_fill_rect rounds IsOff
fb_fill_rect_lem s x y w h rgb v small_x small_y =
    let rows : ℕ = rounds y (add64 y h) s.height in
    let cols : ℕ = rounds x (add64 x w) s.width in
    let fit : 0 < cols → x + cols ≤ s.width = λ some. omega (arith, some) in
    let fit_rows : 0 < rows → y + rows ≤ s.height = λ some. omega (arith, some) in
    (
      record { pitch = v.pitch; width = v.width; height = v.height },
      refl,
      refl,
      refl,
      λ c r lc lr.
          ap (λ p. fill_rows s.back_buffer p x cols rgb rows y (offset p r c)) v.pitch
          ∙ fill_rows-inside s.back_buffer s.width x cols rgb rows y c r fit lc
          ∙ ap (λ b. if b then rgb else s.back_buffer (offset (s.width * 4) r c))
              (same_rect s x y w h c r small_x small_y lc lr)
          ∙ ap (λ p. if in_rect x y w h c r then rgb else s.back_buffer (offset p r c))
              (sym v.pitch),
      λ o off.
          ap (λ p. fill_rows s.back_buffer p x cols rgb rows y o) v.pitch
          ∙ fill_rows-outside s.back_buffer s.width s.height x cols rgb rows y o
              (λ r c lr lc e. off r c lr lc (e ∙ ap (λ p. offset p r c) (sym v.pitch))) fit
              fit_rows,
    )

pub fb_init-IsFramebuffer :
    (lfb_width lfb_height : ℕ) → IsFramebuffer (fb_init lfb_width lfb_height)
unfolding fb_init
fb_init-IsFramebuffer lfb_width lfb_height = record {
  pitch = refl;
  width = ground arith;
  height = ground arith;
}
