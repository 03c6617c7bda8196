-- ===== src/Shell/History/Packed.antt =====
-- Entries packed in a buffer, and the list of lines that they stand for.
use wio_lite_ai.Base.{
  ℕ, zero, suc, ◌+◌, ◌-◌, ◌^◌, ◌≤◌, ◌<◌, ◌≡◌, subst, ap, arith, some, List, [], ◌∷◌, ◌++◌, length,
  Mem, CStr,
}
use wio_lite_ai.Shell.History.{History, skip_entry, next_off, last_before, strlen, copy, line_size}

-- The room that lines take, a NUL behind each.
abbrev pub bytes : List (List ℕ) → ℕ
bytes [] = 0
bytes (w ∷ ws) = length w + 1 + bytes ws

-- From `off` up to `e`, the buffer holds the lines in order.
abbrev pub Packed : Mem → ℕ → List (List ℕ) → ℕ → Type 0
Packed m off [] e = off ≡ e
Packed m off (w ∷ ws) e = CStr m off w × Packed m (off + length w + 1) ws e

-- Every line is shorter than the line buffer.
abbrev pub Short : List (List ℕ) → Type 0
Short [] = Unit {0}
Short (w ∷ ws) = (length w < line_size) × Short ws

pub Packed-bytes :
    (m : Mem) (off : ℕ) (ws : List (List ℕ)) (e : ℕ) → Packed m off ws e → off + bytes ws ≡ e
Packed-bytes m off [] e k = omega arith
Packed-bytes m off (w ∷ ws) e k = omega (arith, Packed-bytes m (off + length w + 1) ws e k.1)

skip_entry-CStr :
    (m : Mem) (off : ℕ) (w : List ℕ) (n : ℕ)
    → CStr m off w
    → length w < n
    → skip_entry n m off ≡ off + length w
unfolding skip_entry
skip_entry-CStr m off w zero s h = absurd (omega arith)
skip_entry-CStr m off [] (suc n) s h = ground arith
skip_entry-CStr m off (c ∷ cs) (suc n) s h = ground (arith, skip_entry-CStr m (off + 1) cs n s.2)

pub next_off-Packed :
    (h : History) (off : ℕ) (w : List ℕ) (ws : List (List ℕ))
    → h.used < 2 ^ 16
    → Packed h.hist off (w ∷ ws) h.used
    → next_off h off ≡ off + length w + 1
unfolding next_off
next_off-Packed h off w ws b k = ground (
  arith,
  Packed-bytes h.hist off (w ∷ ws) h.used k,
  skip_entry-CStr h.hist off w (h.used - off) k.0,
)

pub last_before_lem :
    (f : ℕ) (h : History) (off : ℕ) (ws : List (List ℕ)) (w : List ℕ) (more : List (List ℕ))
    (limit : ℕ)
    → h.used < 2 ^ 16
    → Packed h.hist off (ws ++ w ∷ more) h.used
    → limit ≡ off + bytes ws + length w + 1
    → length ws < f
    → last_before f h limit off ≡ some (off + bytes ws)
unfolding last_before
last_before_lem zero h off ws w more limit b k e lt = absurd (omega arith)
last_before_lem (suc f) h off [] w more limit b k e lt =
    ground (arith, next_off-Packed h off w more b k)
last_before_lem (suc f) h off (v ∷ ws) w more limit b k e lt = ground (
  arith,
  next_off-Packed h off v (ws ++ w ∷ more) b k,
  last_before_lem f h (off + length v + 1) ws w more limit b k.1 (omega arith) (omega arith),
)

pub strlen-CStr :
    (f : ℕ) (m : Mem) (p : ℕ) (w : List ℕ)
    → CStr m p w
    → length w < f
    → strlen f m p ≡ some (length w)
unfolding strlen
strlen-CStr zero m p w s h = absurd (omega arith)
strlen-CStr (suc f) m p [] s h = ground arith
strlen-CStr (suc f) m p (c ∷ cs) s h = ground (arith, strlen-CStr f m (p + 1) cs s.2 (omega arith))

pub copy-CStr :
    (to from : Mem) (dst src n p q : ℕ) (w : List ℕ)
    → CStr from q w
    → dst ≤ p
    → p + length w < dst + n
    → q + dst ≡ src + p
    → CStr (copy to dst from src n) p w
copy-CStr to from dst src n p q [] s a b e = ground (arith, ap from (at e))
  where
    at : q + dst ≡ src + p → src + (p - dst) ≡ q
    at e = omega arith
copy-CStr to from dst src n p q (c ∷ cs) s a b e = (
  ground (arith, ap from at),
  s.1,
  copy-CStr to from dst src n (p + 1) (q + 1) cs s.2 (omega arith) (omega arith) (omega arith),
)
  where
    at : src + (p - dst) ≡ q
    at = omega arith

pub bytes-append : (xs ys : List (List ℕ)) → bytes (xs ++ ys) ≡ bytes xs + bytes ys
bytes-append [] ys = omega arith
bytes-append (x ∷ xs) ys = omega (arith, bytes-append xs ys)

pub length-bytes : (ws : List (List ℕ)) → length ws ≤ bytes ws
length-bytes [] = omega arith
length-bytes (w ∷ ws) = omega (arith, length-bytes ws)

-- An entry stands behind those before it.
pub Packed-at :
    (m : Mem) (off : ℕ) (xs : List (List ℕ)) (w : List ℕ) (ys : List (List ℕ)) (e : ℕ)
    → Packed m off (xs ++ w ∷ ys) e
    → CStr m (off + bytes xs) w
Packed-at m off [] w ys e k = subst (λ p. CStr m p w) (omega arith) k.0
Packed-at m off (x ∷ xs) w ys e k =
    subst (λ p. CStr m p w) (omega arith) (Packed-at m (off + length x + 1) xs w ys e k.1)

pub Packed-behind :
    (m : Mem) (off : ℕ) (xs ys : List (List ℕ)) (e : ℕ)
    → Packed m off (xs ++ ys) e
    → Packed m (off + bytes xs) ys e
Packed-behind m off [] ys e k = subst (λ p. Packed m p ys e) (omega arith) k
Packed-behind m off (x ∷ xs) ys e k =
    subst (λ p. Packed m p ys e) (omega arith) (Packed-behind m (off + length x + 1) xs ys e k.1)
