-- ===== src/Shell/Token/InPlace.antt =====
-- The in-place loop of next_token computes what the byte machine computes.
use wio_lite_ai.Base.{
  ℕ, zero, suc, ◌+◌, ◌-◌, ◌≤◌, ◌<◌, ◌≡◌, arith, Option, none, some, List, [], ◌∷◌, length, Mem,
  store, write, CStr, CStr-store, CStr-at,
}
use wio_lite_ai.Shell.Token.{
  Round, leave, unterminated, round_plain, round_double, round_single, round, token_loop,
}
use wio_lite_ai.Shell.Token.Lexer.{Mode, plain, double, single, effect, scan, partial}

-- How the loop ends, by the token that the machine finds: its bytes stand from `wr` on, and `rd`
-- is as far from the end `e` of the line as what is left is long.
abbrev pub outcome : Mem → ℕ → ℕ → List ℕ → Option (List ℕ × List ℕ) → Round
outcome m wr e p none = unterminated (write m wr p)
outcome m wr e p (some (t, r)) = leave (write m wr t) (e - length r) (wr + length t)

abbrev pub Agrees : ℕ → Mode → ℕ → Mem → ℕ → ℕ → List ℕ → Type 0
Agrees q mode f m rd wr l =
    token_loop f q m rd wr ≡ some (outcome m wr (rd + length l) (partial mode l) (scan mode l))

mutual
  unfolding token_loop round round_plain round_double round_single scan partial effect

  pub loop_plain :
      (l : List ℕ) (f : ℕ) (m : Mem) (rd wr : ℕ)
      → CStr m rd l
      → wr ≤ rd
      → length l < f
      → Agrees 0 plain f m rd wr l
  loop_plain [] zero m rd wr s h k = absurd (omega arith)
  loop_plain [] (suc f) m rd wr s h k = ground arith
  loop_plain (c ∷ cs) zero m rd wr s h k = absurd (omega arith)
  loop_plain (c ∷ []) (suc f) m rd wr s h k = ground (
    arith,
    loop_plain [] f (store m wr c) (rd + 1) (wr + 1)
        (CStr-store m wr c (rd + 1) [] (omega arith) s.2),
    loop_double [] f m (rd + 1) wr,
    loop_single [] f m (rd + 1) wr,
  )
  loop_plain (c ∷ d ∷ ds) (suc f) m rd wr s h k = ground (
    arith,
    loop_plain (d ∷ ds) f (store m wr c) (rd + 1) (wr + 1)
        (CStr-store m wr c (rd + 1) (d ∷ ds) (omega arith) s.2),
    loop_plain ds f (store m wr d) (rd + 2) (wr + 1)
        (CStr-store m wr d (rd + 2) ds (omega arith) (CStr-at m ds (omega arith) s.2.2)),
    loop_double (d ∷ ds) f m (rd + 1) wr,
    loop_single (d ∷ ds) f m (rd + 1) wr,
  )

  loop_double :
      (l : List ℕ) (f : ℕ) (m : Mem) (rd wr : ℕ)
      → CStr m rd l
      → wr ≤ rd
      → length l < f
      → Agrees b'"' double f m rd wr l
  loop_double [] zero m rd wr s h k = absurd (omega arith)
  loop_double [] (suc f) m rd wr s h k = ground arith
  loop_double (c ∷ cs) zero m rd wr s h k = absurd (omega arith)
  loop_double (c ∷ []) (suc f) m rd wr s h k = ground (
    arith,
    loop_double [] f (store m wr c) (rd + 1) (wr + 1)
        (CStr-store m wr c (rd + 1) [] (omega arith) s.2),
    loop_plain [] f m (rd + 1) wr,
  )
  loop_double (c ∷ d ∷ ds) (suc f) m rd wr s h k = ground (
    arith,
    loop_double (d ∷ ds) f (store m wr c) (rd + 1) (wr + 1)
        (CStr-store m wr c (rd + 1) (d ∷ ds) (omega arith) s.2),
    loop_double ds f (store m wr d) (rd + 2) (wr + 1)
        (CStr-store m wr d (rd + 2) ds (omega arith) (CStr-at m ds (omega arith) s.2.2)),
    loop_plain (d ∷ ds) f m (rd + 1) wr,
  )

  loop_single :
      (l : List ℕ) (f : ℕ) (m : Mem) (rd wr : ℕ)
      → CStr m rd l
      → wr ≤ rd
      → length l < f
      → Agrees b'\'' single f m rd wr l
  loop_single [] zero m rd wr s h k = absurd (omega arith)
  loop_single [] (suc f) m rd wr s h k = ground arith
  loop_single (c ∷ cs) zero m rd wr s h k = absurd (omega arith)
  loop_single (c ∷ cs) (suc f) m rd wr s h k = ground (
    arith,
    loop_single cs f (store m wr c) (rd + 1) (wr + 1)
        (CStr-store m wr c (rd + 1) cs (omega arith) s.2),
    loop_plain cs f m (rd + 1) wr,
  )
