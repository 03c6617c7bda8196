-- ===== src/UartRing/Slices.antt =====
-- Runs of consecutive cells of a buffer.
use native.Mathlib.Numerals.{add-one}
use wio_lite_ai.Base.{
  ℕ, zero, suc, ◌+◌, ◌-◌, ◌≤◌, ◌<◌, ◌≡◌, refl, inr, take, drop, get_or-set_self, ap, ap₂, ◌∙◌, ◌⊎◌,
  List, [], ◌∷◌, ◌++◌, arith, length, get_or, set, get_or-set_ne,
}

-- The `n` cells from index `i` on.
abbrev pub slice : List ℕ → ℕ → ℕ → List ℕ
slice buf i zero = []
slice buf i (suc n) = get_or buf i 0 ∷ slice buf (i + 1) n

pub length-slice : (buf : List ℕ) (i n : ℕ) → length (slice buf i n) ≡ n
length-slice buf i zero = refl
length-slice buf i (suc n) = ap suc (length-slice buf (i + 1) n)

pub slice-suc :
    (buf : List ℕ) (i n : ℕ) → slice buf i (suc n) ≡ slice buf i n ++ get_or buf (i + n) 0 ∷ []
slice-suc buf i zero = ap (λ k. get_or buf k 0 ∷ []) (omega arith)
slice-suc buf i (suc n) =
    ap (λ xs. get_or buf i 0 ∷ xs) (slice-suc buf (i + 1) n)
    ∙ ap (λ k. get_or buf i 0 ∷ slice buf (i + 1) n ++ get_or buf k 0 ∷ []) (omega arith)

-- A write outside a run leaves it alone.
pub slice-set :
    (buf : List ℕ) (i n j v : ℕ) → (j < i) ⊎ (i + n ≤ j) → slice (set buf j v) i n ≡ slice buf i n
slice-set buf i zero j v h = refl
slice-set buf i (suc n) j v h =
    ap₂ ◌∷◌ (get_or-set_ne buf v 0 (omega arith)) (slice-set buf (i + 1) n j v (omega arith))

-- The first cell of a run that is not empty.
pub slice-pos :
    (buf : List ℕ) (i n : ℕ) → 0 < n → slice buf i n ≡ get_or buf i 0 ∷ slice buf (i + 1) (n - 1)
slice-pos buf i zero h = absurd (omega arith)
slice-pos buf i (suc n) h = ap (λ k. get_or buf i 0 ∷ slice buf (i + 1) k) (omega arith)

-- A write just past a run, on a cell that the buffer has, extends it.
pub slice-set_end :
    (buf : List ℕ) (i n j v : ℕ)
    → i + n ≡ j
    → j < length buf
    → slice (set buf j v) i (n + 1) ≡ slice buf i n ++ v ∷ []
slice-set_end buf i n j v e h =
    ap (slice (set buf j v) i) (add-one n)
    ∙ slice-suc (set buf j v) i n
    ∙ ap₂ (λ xs x. xs ++ x ∷ []) (slice-set buf i n j v (inr (omega arith)))
        (rw e (get_or-set_self buf j v 0 h))

pub drop-slice :
    (buf : List ℕ) (i n k : ℕ) → k ≤ n → drop k (slice buf i n) ≡ slice buf (i + k) (n - k)
drop-slice buf i n zero h = ap₂ (slice buf) (omega arith) (omega arith)
drop-slice buf i zero (suc k) h = absurd (omega arith)
drop-slice buf i (suc n) (suc k) h =
    drop-slice buf (i + 1) n k (omega arith) ∙ ap₂ (slice buf) (omega arith) (omega arith)

pub take-slice : (buf : List ℕ) (i n k : ℕ) → k ≤ n → take k (slice buf i n) ≡ slice buf i k
take-slice buf i n zero h = refl
take-slice buf i zero (suc k) h = absurd (omega arith)
take-slice buf i (suc n) (suc k) h =
    ap (λ xs. get_or buf i 0 ∷ xs) (take-slice buf (i + 1) n k (omega arith))
