-- ===== src/Rotate/Turned.antt =====
-- Where a landscape pixel stands in the portrait frame buffer.
use native.Mathlib.Nat.{mul-le-mul_right}
use wio_lite_ai.Base.{
  ℕ, ◌+◌, ◌-◌, ◌*◌, ◌%◌, ◌^◌, ◌≤◌, ◌<◌, ◌≡◌, ◌⊎◌, inl, inr, sym, subst, ap, ◌∙◌, arith, Bool, true,
  false, Bool-cases, ◌&&◌, ◌||◌, Option, none, some, ◌==◌, ltb, leb, ltb→lt, if◌then◌else◌, Mem,
}
use wio_lite_ai.Rotate.{Target, run_start, blit_rot}
use wio_lite_ai.Rotate.Pixels.{split_if, written, columns-written, written-outside, written-inside}

-- The pixel at row `r` and place `c` of the frame buffer: the landscape column of row `r` is
-- `fb_rows - 1 - r`, and the landscape row of place `c` is `c`.
abbrev pub in_rectangle : Target → ℕ → ℕ → ℕ → ℕ → Bool
in_rectangle t w h r c =
    (ltb (t.x0 + r) t.fb_rows && leb t.fb_rows (t.x0 + w + r)) && (leb t.y0 c && ltb c (t.y0 + h))

abbrev pub turned : Target → Mem → ℕ → ℕ → Mem → ℕ → ℕ → ℕ
turned t src w h fb r c =
    if in_rectangle t w h r c
    then src (t.fb_rows - 1 - r - t.x0 + (c - t.y0) * t.src_stride)
    else fb (r * t.fb_stride + c)

abbrev pub pixel : Option Mem → ℕ → Option ℕ
pixel none q = none
pixel (some fb) q = some (fb q)

module _ (t : Target) (w h : ℕ) (x_fits : t.x0 + w ≤ t.fb_rows) (y_fits : t.y0 + h ≤ t.fb_stride)
    (rows_word : t.fb_rows < 2 ^ 32) (size_word : t.fb_rows * t.fb_stride < 2 ^ 32) where
  row-le : (a b : ℕ) → a ≤ b → a * t.fb_stride ≤ b * t.fb_stride
  row-le a b p = mul-le-mul_right t.fb_stride p

  next-row : (a b : ℕ) → a < b → a * t.fb_stride + t.fb_stride ≤ b * t.fb_stride
  next-row a b p = omega (arith, row-le (a + 1) b (omega arith))

  row-no-wrap : (a : ℕ) → a ≤ t.fb_rows → a * t.fb_stride % 2 ^ 32 ≡ a * t.fb_stride
  row-no-wrap a p = omega (arith, row-le a t.fb_rows p)

  run_start-row :
      (k : ℕ) → k < w → run_start t k ≡ (t.fb_rows - 1 - (t.x0 + k)) * t.fb_stride + t.y0
  run_start-row k p =
      ap (λ a. a * t.fb_stride % 2 ^ 32 + t.y0)
        {x = (t.fb_rows + 2 ^ 32 - 1 - (t.x0 + k) % 2 ^ 32) % 2 ^ 32}
        {y = t.fb_rows - 1 - (t.x0 + k)} (omega arith)
      ∙ ap (λ a. a + t.y0) (row-no-wrap (t.fb_rows - 1 - (t.x0 + k)) (omega arith))

  runs-apart : (a b : ℕ) → 0 ≤ a → a < b → b < 0 + w → run_start t b + h ≤ run_start t a
  runs-apart a b _ p q = omega (
    arith,
    run_start-row a (omega arith),
    run_start-row b (omega arith),
    next-row (t.fb_rows - 1 - (t.x0 + b)) (t.fb_rows - 1 - (t.x0 + a)) (omega arith),
  )

  -- A pixel of another row, or of the same row beside the run.
  beside :
      (r row c : ℕ)
      → c < t.fb_stride
      → (r ≡ row → (c < t.y0) ⊎ (t.y0 + h ≤ c))
      → (r * t.fb_stride + c < row * t.fb_stride + t.y0)
        ⊎ (row * t.fb_stride + t.y0 + h ≤ r * t.fb_stride + c)
  beside r row c p q = elim (Bool-cases (ltb r row)) [
    | inl y ↦ inl (omega (arith, next-row r row (ground arith)))
    | inr n ↦ elim (Bool-cases (r == row)) [
      | inl y ↦ elim (q (ground arith)) [
        | inl a ↦ inl (omega (arith, row-le r row (ground arith)))
        | inr a ↦ inr (omega (arith, row-le row r (ground arith)))
      ]
      | inr m ↦ inr (omega (arith, next-row row r (ground arith)))
    ]
  ]

  side :
      (r c k : ℕ)
      → in_rectangle t w h r c ≡ false
      → k < w
      → r ≡ t.fb_rows - 1 - (t.x0 + k)
      → (c < t.y0) ⊎ (t.y0 + h ≤ c)
  side r c k out p e = elim (Bool-cases (ltb c t.y0)) [
    | inl a ↦ inl (ltb→lt c t.y0 a)
    | inr a ↦ inr (ground arith)
  ]

  turned-out :
      (src fb : Mem) (r c : ℕ)
      → c < t.fb_stride
      → in_rectangle t w h r c ≡ false
      → written (run_start t) src t.src_stride h w 0 fb (r * t.fb_stride + c)
        ≡ fb (r * t.fb_stride + c)
  turned-out src fb r c p out =
      written-outside (run_start t) src t.src_stride h w 0 fb (r * t.fb_stride + c) (λ k _ b.
        subst (λ s. (r * t.fb_stride + c < s) ⊎ (s + h ≤ r * t.fb_stride + c))
          (sym (run_start-row k (omega arith)))
          (beside r (t.fb_rows - 1 - (t.x0 + k)) c p (side r c k out (omega arith))))

  -- The column of a row, in the rectangle.
  column-lt : (r c : ℕ) → in_rectangle t w h r c ≡ true → t.fb_rows - 1 - r - t.x0 < w
  column-lt r c y = ground arith

  row_of :
      (r c : ℕ)
      → in_rectangle t w h r c ≡ true
      → t.fb_rows - 1 - (t.x0 + (t.fb_rows - 1 - r - t.x0)) ≡ r
  row_of r c y = ground arith

  place-le : (r c : ℕ) → in_rectangle t w h r c ≡ true → t.y0 ≤ c
  place-le r c y = ground arith

  place-lt : (r c : ℕ) → in_rectangle t w h r c ≡ true → c - t.y0 < h
  place-lt r c y = ground arith

  turned-in :
      (src fb : Mem) (r c : ℕ)
      → in_rectangle t w h r c ≡ true
      → written (run_start t) src t.src_stride h w 0 fb (r * t.fb_stride + c)
        ≡ src (t.fb_rows - 1 - r - t.x0 + (c - t.y0) * t.src_stride)
  turned-in src fb r c y =
      ap (written (run_start t) src t.src_stride h w 0 fb) {x = r * t.fb_stride + c}
        {y = run_start t (t.fb_rows - 1 - r - t.x0) + (c - t.y0)}
        (omega (
          arith,
          run_start-row (t.fb_rows - 1 - r - t.x0) (column-lt r c y),
          ap (λ a. a * t.fb_stride) (row_of r c y),
          place-le r c y,
        ))
      ∙ written-inside (run_start t) src t.src_stride h w 0 fb (t.fb_rows - 1 - r - t.x0) (c - t.y0)
          runs-apart (omega arith) (omega (arith, column-lt r c y)) (place-lt r c y)

in_rectangle-none :
    (t : Target) (w h r c : ℕ) → w == 0 || h == 0 ≡ true → in_rectangle t w h r c ≡ false
in_rectangle-none t w h r c e = ground arith

-- A bitmap that fits, at any place of the frame buffer and of any size, is copied with a quarter
-- turn, and the call ends: pixel (sx, sy) goes to row `fb_rows - 1 - (x0 + sx)`, place `y0 + sy`, and
-- every other pixel of the frame buffer stays. The frame buffer has less than 2 ^ 32 pixels.
pub blit_rot-turned :
    (t : Target) (w h : ℕ) (src fb : Mem) (r c : ℕ)
    → t.x0 + w ≤ t.fb_rows
    → t.y0 + h ≤ t.fb_stride
    → t.fb_rows < 2 ^ 32
    → t.fb_rows * t.fb_stride < 2 ^ 32
    → c < t.fb_stride
    → pixel (blit_rot t src w h fb) (r * t.fb_stride + c) ≡ some (turned t src w h fb r c)
unfolding blit_rot
blit_rot-turned t w h src fb r c xs ys rs ss p =
    split_if (λ m. pixel m (r * t.fb_stride + c) ≡ some (turned t src w h fb r c))
      (w == 0 || h == 0)
      (λ e.
        ap
          (λ b. some (
            if b
            then src (t.fb_rows - 1 - r - t.x0 + (c - t.y0) * t.src_stride)
            else fb (r * t.fb_stride + c)))
          (sym (in_rectangle-none t w h r c e)))
      (λ _.
        ap (λ m. pixel m (r * t.fb_stride + c)) (columns-written t src h w 0 fb)
        ∙ ap some (
            split_if
              (λ v. written (run_start t) src t.src_stride h w 0 fb (r * t.fb_stride + c) ≡ v)
              (in_rectangle t w h r c) (turned-in t w h xs ys rs ss src fb r c)
              (turned-out t w h xs ys rs ss src fb r c p)))
