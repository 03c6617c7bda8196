-- ===== src/Rotate/Tests.antt =====
-- svc/gfx_rot.c on a small bitmap.
use wio_lite_ai.Base.{◌+◌, ◌*◌, ◌≡◌, refl, arith, some, Mem}
use wio_lite_ai.Rotate.{
  Target, gather, advance, store_pairs, store_run, column_loop, columns, blit_rot,
}
use wio_lite_ai.Rotate.Turned.{pixel, turned, blit_rot-turned}

-- A portrait frame buffer of 4 rows of 8, in which the bitmap starts at landscape (1, 2).
abbrev portrait : Target
portrait = record { base = 2; src_stride = 10; fb_stride = 8; fb_rows = 4; x0 = 1; y0 = 2 }

abbrev numbered : Mem
numbered q = 100 + q

abbrev blank : Mem
blank q = 0

-- The pixel at (1, 2) of a bitmap of 2 by 3 is in row 1, at place 4.
turned_pixel : pixel (blit_rot portrait numbered 2 3 blank) 12 ≡ some 121
unfolding gather advance store_pairs store_run column_loop columns blit_rot
turned_pixel = refl

kept_pixel : pixel (blit_rot portrait numbered 2 3 blank) 13 ≡ some 0
unfolding gather advance store_pairs store_run column_loop columns blit_rot
kept_pixel = refl

blit_rot-turned_example :
    pixel (blit_rot portrait numbered 2 3 blank) (1 * 8 + 4)
    ≡ some (turned portrait numbered 2 3 blank 1 4)
blit_rot-turned_example =
    blit_rot-turned portrait 2 3 numbered blank 1 4 (omega arith) (omega arith) (omega arith)
      (omega arith) (omega arith)
