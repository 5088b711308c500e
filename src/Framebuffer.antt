-- ===== src/Framebuffer.antt =====
-- The frame buffer, kernel/src/drivers/framebuffer.c: the back buffer of pixels.
--
-- The back buffer is a function from the offset in bytes to the 32 bits that stand there; every
-- access is to a whole pixel. fb_present copies it to the screen's memory, row by row.
pub mod Pixels
pub mod Fill
pub mod Image
mod Tests
use innovati_os.Base.{
  ℕ, zero, suc, ◌+◌, ◌-◌, ◌*◌, ◌/◌, ◌^◌, Bool, true, false, ◌||◌, min, ◌==◌, ltb, leb,
  if◌then◌else◌, update, add64, mul64, bit_and, bit_or, u32, Option, none, some,
}

abbrev pub fb_max_width : ℕ
fb_max_width = 1920

abbrev pub fb_max_height : ℕ
fb_max_height = 1080

-- `g_fb`, without the address and the depth, and `g_back_buffer`.
pub record Framebuffer : Type 0 where
  pub width : ℕ
  pub height : ℕ
  pub back_pitch : ℕ
  pub back_buffer : ℕ → ℕ

-- `fb_init`, with the size that the boot loader gives.
unfoldable pub fb_init : ℕ → ℕ → Framebuffer
fb_init lfb_width lfb_height =
    let width : ℕ = if ltb fb_max_width lfb_width then fb_max_width else lfb_width in
    let height : ℕ = if ltb fb_max_height lfb_height then fb_max_height else lfb_height in
    record { width = width; height = height; back_pitch = width * 4; back_buffer = λ o. 0 }

-- `g_back_buffer + y * g_back_pitch + x * 4`
unfoldable pub offset : ℕ → ℕ → ℕ → ℕ
offset pitch y x = y * pitch + x * 4

unfoldable pub fb_put_pixel : Framebuffer → ℕ → ℕ → ℕ → Framebuffer
fb_put_pixel s x y rgb =
    if leb s.width x || leb s.height y
    then s
    else record s { back_buffer = update s.back_buffer (offset s.back_pitch y x) rgb }

-- The loop over `col`, with `left` columns to go.
unfoldable pub fill_cols : (ℕ → ℕ) → ℕ → ℕ → ℕ → ℕ → ℕ → ℕ → ℕ
fill_cols back pitch row rgb zero col = back
fill_cols back pitch row rgb (suc left) col =
    fill_cols (update back (offset pitch row col) rgb) pitch row rgb left (col + 1)

-- The loop over `row`, with `left` rows to go; each row has `cols` columns from `x` on.
unfoldable pub fill_rows : (ℕ → ℕ) → ℕ → ℕ → ℕ → ℕ → ℕ → ℕ → ℕ → ℕ
fill_rows back pitch x cols rgb zero row = back
fill_rows back pitch x cols rgb (suc left) row =
    fill_rows (fill_cols back pitch row rgb cols x) pitch x cols rgb left (row + 1)

-- How often `for (i = from; i < end && i < limit; i++)` goes round.
unfoldable pub rounds : ℕ → ℕ → ℕ → ℕ
rounds from end limit = min end limit - from

unfoldable pub fb_fill_rect : Framebuffer → ℕ → ℕ → ℕ → ℕ → ℕ → Framebuffer
fb_fill_rect s x y w h rgb =
    let rows : ℕ = rounds y (add64 y h) s.height in
    let cols : ℕ = rounds x (add64 x w) s.width in
    record s { back_buffer = fill_rows s.back_buffer s.back_pitch x cols rgb rows y }

unfoldable pub fb_clear : Framebuffer → ℕ → Framebuffer
fb_clear s rgb = fb_fill_rect s 0 0 s.width s.height rgb

unfoldable pub fb_blend_channel : ℕ → ℕ → ℕ → ℕ
fb_blend_channel src dst alpha = (src * alpha + dst * (255 - alpha)) / 255

-- `fb_image_t` of an image that is there.
pub record Picture : Type 0 where
  pub pixels : ℕ → ℕ
  pub img_width : ℕ
  pub img_height : ℕ

-- `(n >> k) & 0xFF`
abbrev pub channel : ℕ → ℕ → ℕ
channel n k = bit_and (n / 2 ^ k) 0xFF

abbrev pub blend : ℕ → ℕ → ℕ → ℕ
blend src dst_px alpha =
    let out_r : ℕ = u32 (fb_blend_channel (channel src 16) (channel dst_px 16) alpha) in
    let out_g : ℕ = u32 (fb_blend_channel (channel src 8) (channel dst_px 8) alpha) in
    let out_b : ℕ = u32 (fb_blend_channel (channel src 0) (channel dst_px 0) alpha) in
    bit_or (bit_or (bit_or 0xFF000000 (u32 (out_r * 2 ^ 16))) (u32 (out_g * 2 ^ 8))) out_b

-- The pixel that takes the place of `dst_px`; `none` is `continue`.
unfoldable pub drawn : ℕ → ℕ → Option ℕ
drawn src dst_px =
    let alpha : ℕ = src / 2 ^ 24 in
    if alpha == 0
    then none
    else if alpha == 255
    then some (bit_or 0xFF000000 (bit_and src 0x00FFFFFF))
    else some (blend src dst_px alpha)

abbrev pub draw_at : (ℕ → ℕ) → ℕ → Option ℕ → ℕ → ℕ
draw_at back o none = back
draw_at back o (some rgb) = update back o rgb

-- The loop over `dst_col`, with `left` columns to go and `src` for the pixels of the row.
unfoldable pub draw_cols : (ℕ → ℕ) → ℕ → ℕ → ℕ → ℕ → (ℕ → ℕ) → ℕ → ℕ → ℕ → ℕ
draw_cols back pitch width dst_y x src zero dst_col = back
draw_cols back pitch width dst_y x src (suc left) dst_col =
    let dst_x : ℕ = add64 x dst_col in
    let o : ℕ = offset pitch dst_y dst_x in
    if leb width dst_x
    then back
    else draw_cols (draw_at back o (drawn (src dst_col) (back o))) pitch width dst_y x src left
        (dst_col + 1)

-- The pixel of the image in the scaled row and column.
abbrev pub source_pixel : Picture → ℕ → ℕ → ℕ → ℕ
source_pixel image size dst_row dst_col =
    image.pixels (add64 (mul64 (dst_row / size) image.img_width) (dst_col / size))

-- The loop over `dst_row`, with `left` rows to go.
unfoldable pub draw_rows : (ℕ → ℕ) → Framebuffer → ℕ → ℕ → Picture → ℕ → ℕ → ℕ → ℕ → ℕ
draw_rows back s x y image size zero dst_row = back
draw_rows back s x y image size (suc left) dst_row =
    let dst_y : ℕ = add64 y dst_row in
    let cols : ℕ = mul64 image.img_width size in
    if leb s.height dst_y
    then back
    else draw_rows
        (draw_cols back s.back_pitch s.width dst_y x (source_pixel image size dst_row) cols 0) s x y
        image size left (dst_row + 1)

unfoldable pub fb_draw_image : Framebuffer → ℕ → ℕ → Picture → ℕ → Framebuffer
fb_draw_image s x y image size =
    if (image.img_width == 0) || ((image.img_height == 0) || (size == 0)) then s else record s {
      back_buffer = draw_rows s.back_buffer s x y image size (mul64 image.img_height size) 0;
    }
