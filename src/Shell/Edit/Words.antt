-- ===== src/Shell/Edit/Words.antt =====
-- The ends of words: what the loops of `word_start` and `word_end` find, on lists of characters.
use wio_lite_ai.Base.{
  ℕ, zero, suc, ◌+◌, ◌-◌, ◌≤◌, ◌<◌, ◌≡◌, refl, sym, ap, ◌∙◌, arith, Bool, true, false, Bool-cases,
  inl, inr, List, [], ◌∷◌, ◌++◌, length, take, drop, length-take, length-drop, nil_of_length, Mem,
  CStr, ◌==◌, if◌then◌else◌,
}
use wio_lite_ai.Shell.Edit.Buffer.{back_while, on_while}

-- The characters of a list, the last one first.
abbrev pub back_to_front : List ℕ → List ℕ → List ℕ
back_to_front [] acc = acc
back_to_front (c ∷ cs) acc = back_to_front cs (c ∷ acc)

-- The list behind its longest front of blanks, or of other characters.
unfoldable pub skip : Bool → List ℕ → List ℕ
skip blank [] = []
skip true (c ∷ cs) = if c == b' ' then skip true cs else c ∷ cs
skip false (c ∷ cs) = if c == b' ' then c ∷ cs else skip false cs

back_to_front-append :
    (xs ys acc : List ℕ) → back_to_front (xs ++ ys) acc ≡ back_to_front ys (back_to_front xs acc)
back_to_front-append [] ys acc = refl
back_to_front-append (x ∷ xs) ys acc = back_to_front-append xs ys (x ∷ acc)

pub length-back_to_front :
    (xs acc : List ℕ) → length (back_to_front xs acc) ≡ length xs + length acc
length-back_to_front [] acc = omega arith
length-back_to_front (x ∷ xs) acc = omega (arith, length-back_to_front xs (x ∷ acc))

drop-CStr :
    (m : Mem) (p : ℕ) (t : List ℕ) (i : ℕ)
    → CStr m p t
    → i < length t
    → drop i t ≡ m (p + i) ∷ drop (suc i) t
drop-CStr m p [] i s h = absurd (omega arith)
drop-CStr m p (c ∷ cs) zero s h = ap (λ x. x ∷ cs) (sym s.0 ∙ ap m (omega arith))
drop-CStr m p (c ∷ cs) (suc i) s h =
    drop-CStr m (p + 1) cs i s.2 (omega arith) ∙ ap (λ q. m q ∷ drop (suc i) cs) (omega arith)

take-CStr :
    (m : Mem) (p : ℕ) (t : List ℕ) (i : ℕ)
    → CStr m p t
    → i < length t
    → take (suc i) t ≡ take i t ++ m (p + i) ∷ []
take-CStr m p [] i s h = absurd (omega arith)
take-CStr m p (c ∷ cs) zero s h = ap (λ x. x ∷ []) (sym s.0 ∙ ap m (omega arith))
take-CStr m p (c ∷ cs) (suc i) s h =
    ap (λ l. c ∷ l)
      (take-CStr m (p + 1) cs i s.2 (omega arith) ∙ ap (λ q. take i cs ++ m q ∷ []) (omega arith))

module _ (m : Mem) (t : List ℕ) (s : CStr m 0 t) where
  before-suc :
      (i : ℕ) → i < length t → back_to_front (take (suc i) t) [] ≡ m i ∷ back_to_front (take i t) []
  before-suc i h =
      ap (λ l. back_to_front l []) (take-CStr m 0 t i s h)
      ∙ back_to_front-append (take i t) (m (0 + i) ∷ []) []
      ∙ ap (λ q. m q ∷ back_to_front (take i t) []) (omega arith)

  from_here : (i : ℕ) → i < length t → drop i t ≡ m i ∷ drop (i + 1) t
  from_here i h =
      let one : suc i ≡ i + 1 = omega arith in
      drop-CStr m 0 t i s h
      ∙ ap (λ q. m q ∷ drop (suc i) t) (omega arith)
      ∙ ap (λ j. m i ∷ drop j t) one

  pub back_while-skip :
      (blank : Bool) (i : ℕ)
      → i ≤ length t
      → (back_while blank m i ≤ i)
        × (skip blank (back_to_front (take i t) [])
            ≡ back_to_front (take (back_while blank m i) t) [])
  unfolding back_while skip
  back_while-skip blank zero h = (omega arith, refl)
  back_while-skip true (suc i) h =
      let (le, e) = back_while-skip true i (omega arith) in
      elim (Bool-cases (m i == b' ')) [
        | inl y ↦ rw (before-suc i (omega arith), y) (omega arith, e)
        | inr n ↦ rw (before-suc i (omega arith), n) (omega arith, sym (before-suc i (omega arith)))
      ]
  back_while-skip false (suc i) h =
      let (le, e) = back_while-skip false i (omega arith) in
      elim (Bool-cases (m i == b' ')) [
        | inl y ↦ rw (before-suc i (omega arith), y) (omega arith, sym (before-suc i (omega arith)))
        | inr n ↦ rw (before-suc i (omega arith), n) (omega arith, e)
      ]

  pub on_while-skip :
      (blank : Bool) (n i : ℕ)
      → i + n ≡ length t
      → (i ≤ on_while blank n m i)
        × (on_while blank n m i ≤ length t)
        × (skip blank (drop i t) ≡ drop (on_while blank n m i) t)
  unfolding on_while skip
  on_while-skip blank zero i h =
      let none_left : drop i t ≡ [] = nil_of_length (drop i t) (omega (arith, length-drop i t)) in
      (omega arith, omega arith, ap (skip blank) none_left ∙ sym none_left)
  on_while-skip true (suc n) i h =
      let (ge, le, e) = on_while-skip true n (i + 1) (omega arith) in
      elim (Bool-cases (m i == b' ')) [
        | inl y ↦ rw (from_here i (omega arith), y) (omega arith, le, e)
        | inr q ↦
            rw (from_here i (omega arith), q)
              (omega arith, omega arith, sym (from_here i (omega arith)))
      ]
  on_while-skip false (suc n) i h =
      let (ge, le, e) = on_while-skip false n (i + 1) (omega arith) in
      elim (Bool-cases (m i == b' ')) [
        | inl y ↦
            rw (from_here i (omega arith), y)
              (omega arith, omega arith, sym (from_here i (omega arith)))
        | inr q ↦ rw (from_here i (omega arith), q) (omega arith, le, e)
      ]

  -- Both loops in a row find the position that is left when both runs are skipped.
  pub word_start-skip :
      (i : ℕ)
      → i ≤ length t
      → (back_while false m (back_while true m i)
          ≡ length (skip false (skip true (back_to_front (take i t) []))))
        × (back_while false m (back_while true m i) ≤ i)
  word_start-skip i h =
      let (le, e) = back_while-skip true i h in
      let j = back_while true m i in
      let (le', e') = back_while-skip false j (omega (arith, le)) in
      let k = back_while false m j in
      (
        sym (
            ap (λ l. length (skip false l)) e
            ∙ ap length e'
            ∙ omega (arith, length-back_to_front (take k t) [], length-take k t, le, le')),
        omega (arith, le, le'),
      )

  pub word_end-skip :
      (i : ℕ)
      → i ≤ length t
      → let j = on_while true (length t - i) m i in
        let k = on_while false (length t - j) m j in
        (k ≡ length t - length (skip false (skip true (drop i t)))) × (k ≤ length t)
  word_end-skip i h =
      let j = on_while true (length t - i) m i in
      let (ge, le, e) = on_while-skip true (length t - i) i (omega arith) in
      let k = on_while false (length t - j) m j in
      let (ge', le', e') = on_while-skip false (length t - j) j (omega (arith, le)) in
      let s : length (skip false (skip true (drop i t))) ≡ length (drop k t) =
        ap (λ l. length (skip false l)) e ∙ ap length e' in
      (omega (arith, s, length-drop k t, le'), le')
