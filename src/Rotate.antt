-- ===== src/Rotate.antt =====
-- svc/gfx_rot.c: a landscape bitmap copied into a portrait frame buffer, rotated. The bitmap and the
-- frame buffer are two memories of pixels, and the frame buffer's pixel 0 has the byte address `base`,
-- which is even. A store of a pair of pixels is two stores of a pixel. Fuel is a unit a run, and a column is given one for each of its pixels.
mod Pixels
mod Turned
mod Tests
use wio_lite_ai.Base.{
  ℕ, zero, suc, ◌+◌, ◌-◌, ◌*◌, ◌%◌, ◌^◌, ◌||◌, Bool, true, false, Option, none, some, List, [], ◌∷◌,
  ◌==◌, ltb, if◌then◌else◌, Mem, store, write,
}

-- GFX_RUN_PIXELS
abbrev pub run_pixels : ℕ
run_pixels = 64

-- `run.px[i] = *col; col += src_stride_px`, `n` times: the run, and the end of `col`.
unfoldable pub gather : Mem → ℕ → ℕ → ℕ → List ℕ
gather src stride zero col = []
gather src stride (suc n) col = src col ∷ gather src stride n (col + stride)

unfoldable pub advance : ℕ → ℕ → ℕ → ℕ
advance stride zero col = col
advance stride (suc n) col = advance stride n (col + stride)

-- The pairs of a run, and its odd pixel.
unfoldable pub store_pairs : Mem → ℕ → List ℕ → Mem
store_pairs fb dst [] = fb
store_pairs fb dst (a ∷ []) = store fb dst a
store_pairs fb dst (a ∷ b ∷ run) = store_pairs (store (store fb dst a) (dst + 1) b) (dst + 2) run

unfoldable pub store_run : ℕ → Mem → ℕ → List ℕ → Mem
unfolding store_pairs
store_run base fb dst run =
    if (base + 2 * dst) % 4 == 0 then store_pairs fb dst run else write fb dst run

-- `while (left != 0u)`
unfoldable pub column_loop : ℕ → ℕ → Mem → ℕ → Mem → ℕ → ℕ → ℕ → Option Mem
unfolding gather advance store_run
column_loop zero base src stride fb dst col left = if left == 0 then some fb else none
column_loop (suc f) base src stride fb dst col left =
    let n = if ltb left run_pixels then left else run_pixels in
    let stored = store_run base fb dst (gather src stride n col) in
    let rest = column_loop f base src stride stored (dst + n) (advance stride n col) (left - n) in
    if left == 0 then some fb else rest

-- What a call is given, less the bitmap's pixels and the size.
pub record Target : Type 0 where
  pub base : ℕ
  pub src_stride : ℕ
  pub fb_stride : ℕ
  pub fb_rows : ℕ
  pub x0 : ℕ
  pub y0 : ℕ

-- The rows of uint32_t from the left edge of the landscape column `sx`.
abbrev pub run_start : Target → ℕ → ℕ
run_start t sx =
    (t.fb_rows + 2 ^ 32 - 1 - (t.x0 + sx) % 2 ^ 32) % 2 ^ 32 * t.fb_stride % 2 ^ 32 + t.y0

-- `for (sx = 0u; sx < w; sx++)`, with `n` columns left up to `w`.
unfoldable pub columns : Target → Mem → ℕ → ℕ → ℕ → Mem → Option Mem
unfolding column_loop
columns t src h zero sx fb = some fb
columns t src h (suc n) sx fb =
    elim (column_loop h t.base src t.src_stride fb (run_start t sx) sx h) [
      | none ↦ none
      | some fb' ↦ columns t src h n (sx + 1) fb'
    ]

-- `gfx_blit_rot`, the pointers not NULL.
unfoldable pub blit_rot : Target → Mem → ℕ → ℕ → Mem → Option Mem
unfolding columns
blit_rot t src w h fb = if w == 0 || h == 0 then some fb else columns t src h w 0 fb
