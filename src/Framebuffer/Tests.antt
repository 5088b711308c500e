-- ===== src/Framebuffer/Tests.antt =====
-- Witnesses for the frame buffer.
use innovati_os.Base.{ℕ, ◌<◌, ◌≡◌, refl, arith, if◌then◌else◌}
use innovati_os.Framebuffer.{
  Framebuffer, Picture, offset, fb_put_pixel, fb_fill_rect, fb_draw_image,
}
use innovati_os.Framebuffer.Fill.{IsFramebuffer, IsOff, in_rect, fb_fill_rect_lem}
use innovati_os.Framebuffer.Image.{fb_draw_image-in_buffer}

abbrev screen : Framebuffer
screen = record { width = 800; height = 600; back_pitch = 3200; back_buffer = λ o. 0 }

screen-IsFramebuffer : IsFramebuffer screen
screen-IsFramebuffer = record { pitch = refl; width = omega arith; height = omega arith }

-- A rectangle that leaves the screen on two sides.
fb_fill_rect_lem_example :
    IsFramebuffer (fb_fill_rect screen 700 500 200 300 7)
    × ((fb_fill_rect screen 700 500 200 300 7).width ≡ 800)
    × ((fb_fill_rect screen 700 500 200 300 7).height ≡ 600)
    × ((fb_fill_rect screen 700 500 200 300 7).back_pitch ≡ 3200)
    × ((c r : ℕ)
        → c < 800
        → r < 600
        → (fb_fill_rect screen 700 500 200 300 7).back_buffer (offset 3200 r c)
          ≡ (if in_rect 700 500 200 300 c r then 7 else 0))
    × ((o : ℕ) → IsOff screen o → (fb_fill_rect screen 700 500 200 300 7).back_buffer o ≡ 0)
fb_fill_rect_lem_example =
    fb_fill_rect_lem screen 700 500 200 300 7 screen-IsFramebuffer (omega arith) (omega arith)

abbrev dot : Picture
dot = record { pixels = λ i. 0xFF00FF00; img_width = 1; img_height = 1 }

fb_draw_image-in_buffer_example :
    ((fb_draw_image screen 799 599 dot 4).back_buffer 8294400 ≡ 0)
    × ((fb_put_pixel screen 799 599 7).back_buffer 8294400 ≡ 0)
fb_draw_image-in_buffer_example =
    fb_draw_image-in_buffer screen 799 599 7 dot 4 8294400 screen-IsFramebuffer (omega arith)
