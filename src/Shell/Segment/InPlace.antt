-- ===== src/Shell/Segment/InPlace.antt =====
-- The in-place loop of cli_next_segment finds the first ';' outside quotes.
use wio_lite_ai.Base.{
  ℕ, zero, suc, ◌+◌, ◌-◌, ◌<◌, ◌≡◌, refl, subst, ap, ◌∙◌, arith, ◌⊎◌, inl, inr, Option, none, some,
  List, [], ◌∷◌, ◌++◌, length, length-append, Mem, store, CStr, CStr-append, CStr-store, CStr-at,
  CStr-prefix, Option-cases,
}
use wio_lite_ai.Shell.Token.Lexer.{Mode, plain, double, single, effect}
use wio_lite_ai.Shell.Token.{is_space}
use wio_lite_ai.Shell.Segment.{segment_round, segment_loop, Segment, segment_end, next_segment}
use wio_lite_ai.Shell.Segment.Modes.{
  next_mode, mode_after, cut_at, cons_piece, NoCut, cut_at-some, cut_at-none,
}

-- The address of the cut in a string that ends at `e`.
abbrev place : ℕ → Option (List ℕ × List ℕ) → Option ℕ
place e none = none
place e (some (a, b)) = some (e - length b - 1)

abbrev Finds : ℕ → Mode → ℕ → Mem → ℕ → List ℕ → Type 0
Finds quote mode f m p l = segment_loop f quote m p ≡ some (place (p + length l) (cut_at mode l))

mutual
  unfolding segment_loop segment_round cut_at cons_piece next_mode effect is_space

  find_plain :
      (l : List ℕ) (f : ℕ) (m : Mem) (p : ℕ) → CStr m p l → length l < f → Finds 0 plain f m p l
  find_plain [] zero m p s k = absurd (omega arith)
  find_plain [] (suc f) m p s k = ground arith
  find_plain (c ∷ cs) zero m p s k = absurd (omega arith)
  find_plain (c ∷ []) (suc f) m p s k =
      ground
        (arith, find_plain [] f m (p + 1), find_double [] f m (p + 1), find_single [] f m (p + 1))
  find_plain (c ∷ d ∷ ds) (suc f) m p s k = ground (
    arith,
    find_plain (d ∷ ds) f m (p + 1) s.2,
    find_plain ds f m (p + 2) (CStr-at m ds (omega arith) s.2.2),
    find_double (d ∷ ds) f m (p + 1) s.2,
    find_single (d ∷ ds) f m (p + 1) s.2,
  )

  find_double :
      (l : List ℕ) (f : ℕ) (m : Mem) (p : ℕ) → CStr m p l → length l < f → Finds b'"' double f m p l
  find_double [] zero m p s k = absurd (omega arith)
  find_double [] (suc f) m p s k = ground arith
  find_double (c ∷ cs) zero m p s k = absurd (omega arith)
  find_double (c ∷ []) (suc f) m p s k =
      ground (arith, find_plain [] f m (p + 1), find_double [] f m (p + 1))
  find_double (c ∷ d ∷ ds) (suc f) m p s k = ground (
    arith,
    find_plain (d ∷ ds) f m (p + 1) s.2,
    find_double (d ∷ ds) f m (p + 1) s.2,
    find_double ds f m (p + 2) (CStr-at m ds (omega arith) s.2.2),
  )

  find_single :
      (l : List ℕ) (f : ℕ) (m : Mem) (p : ℕ)
      → CStr m p l
      → length l < f
      → Finds b'\'' single f m p l
  find_single [] zero m p s k = absurd (omega arith)
  find_single [] (suc f) m p s k = ground arith
  find_single (c ∷ cs) zero m p s k = absurd (omega arith)
  find_single (c ∷ cs) (suc f) m p s k =
      ground (arith, find_plain cs f m (p + 1) s.2, find_single cs f m (p + 1) s.2)

-- A segment that a ';' ends: its string, the string behind it, and why the cut is there.
pub record CutOff (m : Mem) (p q : ℕ) (l : List ℕ) : Type 0 where
  pub piece : List ℕ
  pub behind : List ℕ
  pub joins : l ≡ piece ++ b';' ∷ behind
  pub outside_quotes : mode_after plain piece ≡ plain
  pub first : NoCut plain piece
  pub piece_is : CStr m p piece
  pub behind_is : CStr m q behind

-- For a line in memory and fuel for its length, `cli_next_segment` returns the line as the segment.
-- Either no byte of the line is a ';' outside quotes and escapes, memory is as it was and the cursor
-- is NULL, or the segment is the string before the first such ';' and the cursor is at the string
-- behind it.
pub next_segment_lem :
    (f : ℕ) (m : Mem) (p : ℕ) (l : List ℕ)
    → CStr m p l
    → length l < f
    → (s : Segment) × (next_segment f m (some p) ≡ some s)
      × (s.start ≡ some p)
      × (((s.cursor ≡ none) × (s.mem ≡ m) × NoCut plain l)
          ⊎ ((q : ℕ) × (s.cursor ≡ some q) × CutOff s.mem p q l))
unfolding next_segment segment_end
next_segment_lem f m p l s k = elim (Option-cases (cut_at plain l)) [
  | inl e ↦ (
    record { start = some p; mem = m; cursor = none },
    ground (arith, e, find_plain l f m p s k),
    refl,
    inl (refl, refl, cut_at-none l plain e),
  )
  | inr ((a, b), e) ↦
      let (joins, ends, none_before) = cut_at-some l plain a b e in
      let q = p + length a in
      let at_cut : CStr m p (a ++ b';' ∷ b) = subst (CStr m p) joins s in
      let long : length l ≡ length a + suc (length b) =
        ap length joins ∙ length-append a (b';' ∷ b) in
      (
        record { start = some p; mem = store m q 0; cursor = some (q + 1) },
        ground (arith, e, find_plain l f m p s k, long),
        refl,
        inr (
          q + 1,
          refl,
          record {
            piece = a;
            behind = b;
            joins = joins;
            outside_quotes = ends;
            first = none_before;
            piece_is = CStr-prefix m p a (b';' ∷ b) at_cut;
            behind_is =
                CStr-store m q 0 (q + 1) b (omega arith) ((CStr-append m p a (b';' ∷ b) at_cut).2);
          },
        ),
      )
]
