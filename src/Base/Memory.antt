-- ===== src/Base/Memory.antt =====
-- C memory as a function from addresses to bytes, and the NUL-terminated strings in it.
use Prim.Native.Nat.{ℕ, ◌+◌, ◌-◌, ◌≤◌, ◌<◌}
use mathlib.Core.Path.{◌≡◌, refl, subst, ap, ◌∙◌}
use mathlib.Core.Logic.{◌≢◌, ◌⊎◌}
use mathlib.Core.List.{List, [], ◌∷◌, ◌++◌}
use native.Mathlib.Omega.{arith}
use wio_lite_ai.Base.Tests.{◌==◌, if◌then◌else◌}
use wio_lite_ai.Base.Lists.{length, length-append}

abbrev pub Mem : Type 0
Mem = ℕ → ℕ

abbrev pub store : Mem → ℕ → ℕ → Mem
store m p v = λ q. if q == p then v else m q

-- The string at `p` is `l`: its bytes, none of them NUL, and a NUL behind them.
abbrev pub CStr : Mem → ℕ → List ℕ → Type 0
CStr m p [] = m p ≡ 0
CStr m p (c ∷ cs) = (m p ≡ c) × (c ≢ 0) × CStr m (p + 1) cs

-- The bytes of `l` stored from `p` on.
abbrev pub write : Mem → ℕ → List ℕ → Mem
write m p [] = m
write m p (c ∷ cs) = write (store m p c) (p + 1) cs

pub store_self : (m : Mem) (p v : ℕ) → store m p v p ≡ v
store_self m p v = ground arith

pub store-ne : (m : Mem) (p v q : ℕ) → q ≢ p → store m p v q ≡ m q
store-ne m p v q h = ground arith

pub CStr-store : (m : Mem) (p v q : ℕ) (l : List ℕ) → p < q → CStr m q l → CStr (store m p v) q l
CStr-store m p v q [] h s = ground arith
CStr-store m p v q (c ∷ cs) h s = (ground arith, s.1, CStr-store m p v (q + 1) cs (omega arith) s.2)

pub CStr-write :
    (m : Mem) (p : ℕ) (t : List ℕ) (q : ℕ) (l : List ℕ)
    → p + length t ≤ q
    → CStr m q l
    → CStr (write m p t) q l
CStr-write m p [] q l h s = s
CStr-write m p (c ∷ t) q l h s =
    CStr-write (store m p c) (p + 1) t q l (omega arith) (CStr-store m p c q l (omega arith) s)

pub write-below : (m : Mem) (p : ℕ) (t : List ℕ) (q : ℕ) → q < p → write m p t q ≡ m q
write-below m p [] q h = refl
write-below m p (c ∷ t) q h =
    write-below (store m p c) (p + 1) t q (omega arith) ∙ store-ne m p c q (omega arith)

pub write-above : (m : Mem) (p : ℕ) (t : List ℕ) (q : ℕ) → p + length t ≤ q → write m p t q ≡ m q
write-above m p [] q h = refl
write-above m p (c ∷ t) q h =
    write-above (store m p c) (p + 1) t q (omega arith) ∙ store-ne m p c q (omega arith)

-- The same string, its address written another way.
pub CStr-at : (m : Mem) (l : List ℕ) {p q : ℕ} → p ≡ q → CStr m p l → CStr m q l
CStr-at m l e = subst (λ k. CStr m k l) e

pub CStr-append :
    (m : Mem) (p : ℕ) (xs ys : List ℕ) → CStr m p (xs ++ ys) → CStr m (p + length xs) ys
CStr-append m p [] ys s = CStr-at m ys (omega arith) s
CStr-append m p (x ∷ xs) ys s = CStr-at m ys (omega arith) (CStr-append m (p + 1) xs ys s.2)

-- Bytes none of which is NUL, written and terminated, are a string.
abbrev pub NonNul : List ℕ → Type 0
NonNul [] = Unit {0}
NonNul (c ∷ cs) = (c ≢ 0) × NonNul cs

pub CStr-NonNul : (m : Mem) (p : ℕ) (l : List ℕ) → CStr m p l → NonNul l
CStr-NonNul m p [] s = tt
CStr-NonNul m p (c ∷ cs) s = (s.1, CStr-NonNul m (p + 1) cs s.2)

pub CStr-terminated :
    (m : Mem) (p e : ℕ) (t : List ℕ)
    → e ≡ p + length t
    → NonNul t
    → CStr (store (write m p t) e 0) p t
CStr-terminated m p e [] h z = ground arith
CStr-terminated m p e (c ∷ t) h z = (
  ground (arith, write-below (store m p c) (p + 1) t p, store_self m p c),
  z.0,
  CStr-terminated (store m p c) (p + 1) e t (omega arith) z.1,
)

-- A string depends on its own bytes and its NUL alone.
pub CStr-agree :
    (m m' : Mem) (p : ℕ) (l : List ℕ)
    → ((q : ℕ) → p ≤ q → q ≤ p + length l → m' q ≡ m q)
    → CStr m p l
    → CStr m' p l
CStr-agree m m' p [] h s = h p (omega arith) (omega arith) ∙ s
CStr-agree m m' p (c ∷ cs) h s = (
  h p (omega arith) (omega arith) ∙ s.0,
  s.1,
  CStr-agree m m' (p + 1) cs (λ q a b. h q (omega arith) (omega arith)) s.2,
)

-- The end of a string, at the address that its length gives.
pub CStr-suffix :
    (m : Mem) (p : ℕ) (l pre r : List ℕ)
    → l ≡ pre ++ r
    → CStr m p l
    → CStr m (p + length l - length r) r
CStr-suffix m p l pre r e s =
    CStr-at m r (omega (arith, ap length e, length-append pre r))
      (CStr-append m p pre r (subst (CStr m p) e s))

-- A NUL stored before a string, or on the NUL of an empty one, leaves the string alone.
pub CStr-store_nul :
    (m : Mem) (p q : ℕ) (l : List ℕ) → (p < q) ⊎ (l ≡ []) → CStr m q l → CStr (store m p 0) q l
CStr-store_nul m p q [] h s = ground arith
CStr-store_nul m p q (c ∷ cs) h s = CStr-store m p 0 q (c ∷ cs) (ground arith) s

-- A NUL stored behind a prefix of a string cuts it there.
pub CStr-prefix :
    (m : Mem) (p : ℕ) (xs ys : List ℕ) → CStr m p (xs ++ ys) → CStr (store m (p + length xs) 0) p xs
CStr-prefix m p [] ys s = ground arith
CStr-prefix m p (x ∷ xs) ys s = (
  store-ne m (p + length (x ∷ xs)) 0 p (omega arith) ∙ s.0,
  s.1,
  subst (λ k. CStr (store m k 0) (p + 1) xs) (omega arith) (CStr-prefix m (p + 1) xs ys s.2),
)
