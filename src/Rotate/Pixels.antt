-- ===== src/Rotate/Pixels.antt =====
-- Where every pixel of the bitmap goes.
use wio_lite_ai.Base.{
  ℕ, zero, suc, ◌+◌, ◌-◌, ◌*◌, ◌%◌, ◌≤◌, ◌<◌, ◌≡◌, ◌⊎◌, inl, inr, refl, sym, subst, ap, ◌∙◌, arith,
  Bool, true, false, Bool-cases, Option, none, some, List, [], ◌∷◌, length, ◌==◌, ltb,
  if◌then◌else◌, if_either, Mem, store, store_self, write, write-below, write-above,
}
use wio_lite_ai.Rotate.{
  gather, advance, store_pairs, store_run, column_loop, run_pixels, Target, run_start, columns,
}

store_pairs-write : (fb : Mem) (dst : ℕ) (l : List ℕ) → store_pairs fb dst l ≡ write fb dst l
unfolding store_pairs
store_pairs-write fb dst [] = refl
store_pairs-write fb dst (a ∷ []) = refl
store_pairs-write fb dst (a ∷ b ∷ l) =
    store_pairs-write (store (store fb dst a) (dst + 1) b) (dst + 2) l
    ∙ ap (λ p. write (store (store fb dst a) (dst + 1) b) p l) (omega arith)

store_run-write :
    (base : ℕ) (fb : Mem) (dst : ℕ) (l : List ℕ) → store_run base fb dst l ≡ write fb dst l
unfolding store_run
store_run-write base fb dst l =
    if_either (λ (m : Mem). m ≡ write fb dst l) ((base + 2 * dst) % 4 == 0)
      (store_pairs-write fb dst l) refl

length-gather : (src : Mem) (st n col : ℕ) → length (gather src st n col) ≡ n
unfolding gather
length-gather src st zero col = refl
length-gather src st (suc n) col = ap suc (length-gather src st n (col + st))

-- Two runs, one behind the other, are one run.
write-gather :
    (src : Mem) (st a b col : ℕ) (fb : Mem) (dst d n : ℕ)
    → d ≡ dst + a
    → n ≡ a + b
    → write (write fb dst (gather src st a col)) d (gather src st b (advance st a col))
      ≡ write fb dst (gather src st n col)
unfolding gather advance
write-gather src st zero b col fb dst d n p q =
    ap (λ x. write fb x (gather src st b col)) {y = dst} (omega arith)
    ∙ ap (λ x. write fb dst (gather src st x col)) {x = b} {y = n} (omega arith)
write-gather src st (suc a) b col fb dst d n p q =
    write-gather src st a b (col + st) (store fb dst (src col)) (dst + 1) d (a + b) (omega arith)
      refl
    ∙ ap (λ x. write fb dst (gather src st x col)) {x = suc (a + b)} {y = n} (omega arith)

pub split_if {ℓ ℓ'} :
    {A : Type ℓ} (P : A → Type ℓ') (b : Bool) {x y : A}
    → (b ≡ true → P x)
    → (b ≡ false → P y)
    → P (if b then x else y)
split_if P true p q = p refl
split_if P false p q = q refl

gather-none : (src : Mem) (st n col : ℕ) → n ≡ 0 → gather src st n col ≡ []
unfolding gather
gather-none src st n col h = ap (λ x. gather src st x col) h

abbrev run_length : ℕ → ℕ
run_length left = if ltb left run_pixels then left else run_pixels

run_length-le : (left : ℕ) → run_length left ≤ left
run_length-le left = ground arith

run_length-gt : (left f : ℕ) → left == 0 ≡ false → left ≤ suc f → left - run_length left ≤ f
run_length-gt left f z h = ground arith

-- A column is one write, and its loop ends: a unit of fuel a pixel is enough.
column_loop-write :
    (f base : ℕ) (src : Mem) (st : ℕ) (fb : Mem) (dst col left : ℕ)
    → left ≤ f
    → column_loop f base src st fb dst col left ≡ some (write fb dst (gather src st left col))
unfolding column_loop
column_loop-write zero base src st fb dst col left h =
    split_if (λ (r : Option Mem). r ≡ some (write fb dst (gather src st left col))) (left == 0)
      (λ z. ap (λ l. some (write fb dst l)) (sym (gather-none src st left col (ground arith))))
      (λ z. ground arith)
column_loop-write (suc f) base src st fb dst col left h =
    split_if (λ (r : Option Mem). r ≡ some (write fb dst (gather src st left col))) (left == 0)
      (λ z. ap (λ l. some (write fb dst l)) (sym (gather-none src st left col (ground arith))))
      (λ z.
        column_loop-write f base src st _ _ _ _ (run_length-gt left f z h)
        ∙ ap
            (λ m. some (
              write m (dst + run_length left)
                (gather src st (left - run_length left) (advance st (run_length left) col))))
            (store_run-write base fb dst (gather src st (run_length left) col))
        ∙ ap some (
            write-gather src st (run_length left) (left - run_length left) col fb dst _ left refl
              (omega (arith, run_length-le left))))

-- The columns, one write each.
pub written : (ℕ → ℕ) → Mem → ℕ → ℕ → ℕ → ℕ → Mem → Mem
written start src st h zero sx fb = fb
written start src st h (suc n) sx fb =
    written start src st h n (sx + 1) (write fb (start sx) (gather src st h sx))

pub columns-written :
    (t : Target) (src : Mem) (h n sx : ℕ) (fb : Mem)
    → columns t src h n sx fb ≡ some (written (run_start t) src t.src_stride h n sx fb)
unfolding columns written
columns-written t src h zero sx fb = refl
columns-written t src h (suc n) sx fb =
    ap (λ (r : Option Mem). elim r [ none ↦ none | some fb' ↦ columns t src h n (sx + 1) fb' ])
      (column_loop-write h t.base src t.src_stride fb (run_start t sx) sx h (omega arith))
    ∙ columns-written t src h n (sx + 1) _

gather-at :
    (src : Mem) (st n col : ℕ) (fb : Mem) (dst i q c : ℕ)
    → i < n
    → q ≡ dst + i
    → c ≡ col + i * st
    → write fb dst (gather src st n col) q ≡ src c
unfolding gather
gather-at src st zero col fb dst i q c h e f = ground arith
gather-at src st (suc n) col fb dst zero q c h e f =
    write-below (store fb dst (src col)) (dst + 1) (gather src st n (col + st)) q (omega arith)
    ∙ ap (store fb dst (src col)) {y = dst} (omega arith)
    ∙ store_self fb dst (src col)
    ∙ ap src {x = col} {y = c} (omega arith)
gather-at src st (suc n) col fb dst (suc i) q c h e f =
    gather-at src st n (col + st) (store fb dst (src col)) (dst + 1) i q c (omega arith)
      (omega arith) (omega arith)

run-outside :
    (src : Mem) (st n col : ℕ) (fb : Mem) (dst q : ℕ)
    → (q < dst) ⊎ (dst + n ≤ q)
    → write fb dst (gather src st n col) q ≡ fb q
run-outside src st n col fb dst q (inl h) = write-below fb dst (gather src st n col) q h
run-outside src st n col fb dst q (inr h) =
    write-above fb dst _ q (subst (λ m. dst + m ≤ q) (sym (length-gather src st n col)) h)

pub written-outside :
    (start : ℕ → ℕ) (src : Mem) (st h n sx : ℕ) (fb : Mem) (q : ℕ)
    → ((k : ℕ) → sx ≤ k → k < sx + n → (q < start k) ⊎ (start k + h ≤ q))
    → written start src st h n sx fb q ≡ fb q
unfolding written
written-outside start src st h zero sx fb q out = refl
written-outside start src st h (suc n) sx fb q out =
    written-outside start src st h n (sx + 1) _ q (λ k a b. out k (omega arith) (omega arith))
    ∙ run-outside src st h sx fb (start sx) q (out sx (omega arith) (omega arith))

-- The run of each column is above the later ones'.
pub written-inside :
    (start : ℕ → ℕ) (src : Mem) (st h n sx : ℕ) (fb : Mem) (k i : ℕ)
    → ((a b : ℕ) → sx ≤ a → a < b → b < sx + n → start b + h ≤ start a)
    → sx ≤ k
    → k < sx + n
    → i < h
    → written start src st h n sx fb (start k + i) ≡ src (k + i * st)
unfolding written
written-inside start src st h zero sx fb k i apart p q r = ground arith
written-inside start src st h (suc n) sx fb k i apart p q r = elim (Bool-cases (k == sx)) [
  | inl e ↦
      written-outside start src st h n (sx + 1) _ (start k + i)
        (λ j a b. inr (omega (arith, apart k j p (ground arith) (ground arith))))
      ∙ gather-at src st h sx fb (start sx) i (start k + i) (k + i * st) r
          (ap (λ x. start x + i) (ground arith)) (ground arith)
  | inr e ↦
      written-inside start src st h n (sx + 1) _ k i
        (λ a b x y z. apart a b (omega arith) y (omega arith)) (ground arith) (omega arith) r
]
