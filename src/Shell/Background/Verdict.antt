-- ===== src/Shell/Background/Verdict.antt =====
-- What cli_segment_is_background answers, and what it does to the segment.
use wio_lite_ai.Base.{
  ℕ, zero, suc, ◌+◌, ◌-◌, ◌≤◌, ◌≡◌, arith, Bool, true, false, ◌&&◌, Option, none, some, List, [],
  ◌∷◌, Mem, leb, if◌then◌else◌,
}
use wio_lite_ai.Shell.Token.{is_space}
use wio_lite_ai.Shell.Background.Candidate.{Mark, candidate}

-- The `n` bytes from `q` on are whitespace.
abbrev pub all_blank : ℕ → Mem → ℕ → Bool
all_blank zero m q = true
all_blank (suc n) m q = is_space (m (q + n)) && all_blank n m q

-- The segment at `p` with the byte at `a`, and the whitespace in front of it, made NUL.
abbrev pub cut : Mem → ℕ → ℕ → Mem
cut m p a = λ q. if leb p q && (leb q a && all_blank (a - q) m q) then 0 else m q

abbrev pub Verdict : Mem → ℕ → Option ℕ → Bool × Mem → Type 0
Verdict m p none (b, m') = (b ≡ false) × (m' ≡ m)
Verdict m p (some a) (b, m') = (b ≡ true) × ((q : ℕ) → m' q ≡ cut m p a q)

-- Marks at or behind `p`.
abbrev Above : ℕ → List Mark → Type 0
Above p [] = Unit {0}
Above p ((a, b) ∷ xs) = (p ≤ a) × Above p xs

candidate-ge : (p a : ℕ) (seen : List Mark) → Above p seen → candidate seen ≡ some a → p ≤ a
candidate-ge p a [] h e = cc
candidate-ge p a ((x, false) ∷ seen) h e = cc
candidate-ge p a ((x, true) ∷ seen) h e = ground (arith, h.0, e)

abbrev no_address : Option ℕ
no_address = none
