-- ===== src/Framebuffer/Image.antt =====
-- The drawing of images and single pixels, and the end of the back buffer.
use innovati_os.Base.{
  ℕ, zero, suc, ◌+◌, ◌*◌, ◌<◌, ◌≡◌, ◌≢◌, refl, ap, ◌∙◌, inl, inr, ◌||◌, ◌==◌, arith, if◌then◌else◌,
  update_ne, dec_le, add64, mul64, Option, none, some, Bool-cases,
}
use innovati_os.Framebuffer.{
  Framebuffer, Picture, offset, draw_at, drawn, draw_cols, draw_rows, source_pixel, fb_draw_image,
  fb_put_pixel, fb_max_width, fb_max_height,
}
use innovati_os.Framebuffer.Pixels.{offset-below}
use innovati_os.Framebuffer.Fill.{IsFramebuffer, IsOff}

draw_at-off :
    (back : ℕ → ℕ) (here o : ℕ) (pixel : Option ℕ) → o ≢ here → draw_at back here pixel o ≡ back o
draw_at-off back here o none ne = refl
draw_at-off back here o (some rgb) ne = update_ne back here rgb o ne

draw_cols-off :
    (back : ℕ → ℕ) (pitch width dst_y x : ℕ) (src : ℕ → ℕ) (left dst_col o : ℕ)
    → ((c : ℕ) → c < width → o ≢ offset pitch dst_y c)
    → draw_cols back pitch width dst_y x src left dst_col o ≡ back o
unfolding draw_cols
draw_cols-off back pitch width dst_y x src zero dst_col o off = refl
draw_cols-off back pitch width dst_y x src (suc left) dst_col o off =
    let dst_x : ℕ = add64 x dst_col in
    let here : ℕ = offset pitch dst_y dst_x in
    let next : ℕ → ℕ = draw_at back here (drawn (src dst_col) (back here)) in
    elim (dec_le width dst_x) [
      | yes out ↦ ground (arith, out)
      | no within ↦
          (let ih = draw_cols-off next pitch width dst_y x src left (dst_col + 1) o off in
            let ne : o ≢ here = off dst_x (omega arith) in
            ground
              (arith, ih, within, draw_at-off back here o (drawn (src dst_col) (back here)) ne))
    ]

draw_rows-off :
    (back : ℕ → ℕ) (s : Framebuffer) (x y : ℕ) (image : Picture) (size left dst_row o : ℕ)
    → IsOff s o
    → draw_rows back s x y image size left dst_row o ≡ back o
unfolding draw_rows IsOff
draw_rows-off back s x y image size zero dst_row o off = refl
draw_rows-off back s x y image size (suc left) dst_row o off =
    let dst_y : ℕ = add64 y dst_row in
    let cols : ℕ = mul64 image.img_width size in
    let next : ℕ → ℕ =
      draw_cols back s.back_pitch s.width dst_y x (source_pixel image size dst_row) cols 0 in
    elim (dec_le s.height dst_y) [
      | yes out ↦ ground (arith, out)
      | no within ↦
          (let ih = draw_rows-off next s x y image size left (dst_row + 1) o off in
            let row =
              draw_cols-off back s.back_pitch s.width dst_y x (source_pixel image size dst_row) cols
                0 o (λ c lc. off dst_y c (omega arith) lc) in
            ground (arith, ih, row, within))
    ]

-- An offset whose 4 bytes do not end in the buffer is not one of a pixel.
pub behind-IsOff :
    (s : Framebuffer) (o : ℕ)
    → IsFramebuffer s
    → fb_max_width * fb_max_height * 4 < o + 4
    → IsOff s o
unfolding IsOff
behind-IsOff s o v far r c lr lc e = omega (
  arith,
  far,
  e ∙ ap (λ p. offset p r c) v.pitch,
  offset-below s.width s.height r c v.width v.height lc lr,
)

fb_put_pixel-off :
    (s : Framebuffer) (x y rgb o : ℕ)
    → IsOff s o
    → (fb_put_pixel s x y rgb).back_buffer o ≡ s.back_buffer o
unfolding fb_put_pixel IsOff
fb_put_pixel-off s x y rgb o off = elim (dec_le s.width x) [
  | yes right ↦ ground (arith, right)
  | no in_row ↦ elim (dec_le s.height y) [
    | yes low ↦ ground (arith, low)
    | no in_col ↦
        (let ne : o ≢ offset s.back_pitch y x = off y x (omega arith) (omega arith) in
          ground
            (arith, in_row, in_col, update_ne s.back_buffer (offset s.back_pitch y x) rgb o ne))
  ]
]

fb_draw_image-off :
    (s : Framebuffer) (x y : ℕ) (image : Picture) (size o : ℕ)
    → IsOff s o
    → (fb_draw_image s x y image size).back_buffer o ≡ s.back_buffer o
unfolding fb_draw_image
fb_draw_image-off s x y image size o off =
    let all = draw_rows-off s.back_buffer s x y image size (mul64 image.img_height size) 0 o off in
    elim (Bool-cases ((image.img_width == 0) || ((image.img_height == 0) || (size == 0)))) [
      | inl e ↦
          ap
            (λ b.
              (if b then s else record s {
                back_buffer =
                    draw_rows s.back_buffer s x y image size (mul64 image.img_height size) 0;
              }).back_buffer
                o)
            e
      | inr e ↦
          ap
            (λ b.
              (if b then s else record s {
                back_buffer =
                    draw_rows s.back_buffer s x y image size (mul64 image.img_height size) 0;
              }).back_buffer
                o)
            e
          ∙ all
    ]

-- On such a frame buffer, fb_draw_image of any image of any size at any place, and fb_put_pixel
-- at any place, write no 4 bytes that end behind the back buffer.
pub fb_draw_image-in_buffer :
    (s : Framebuffer) (x y rgb : ℕ) (image : Picture) (size o : ℕ)
    → IsFramebuffer s
    → fb_max_width * fb_max_height * 4 < o + 4
    → ((fb_draw_image s x y image size).back_buffer o ≡ s.back_buffer o)
      × ((fb_put_pixel s x y rgb).back_buffer o ≡ s.back_buffer o)
fb_draw_image-in_buffer s x y rgb image size o v far =
    let off : IsOff s o = behind-IsOff s o v far in
    (fb_draw_image-off s x y image size o off, fb_put_pixel-off s x y rgb o off)
