-- ===== src/Shell/Segment/Modes.antt =====
-- The mode of the byte machine behind a string, and the first ';' that stands outside quotes.
use wio_lite_ai.Base.{
  ℕ, ◌≡◌, ◌≢◌, refl, ap, subst, sym, arith, inl, inr, Bool, true, false, ◌&&◌, Option, none, some,
  List, [], ◌∷◌, ◌++◌, ◌==◌, if◌then◌else◌, Bool-cases,
}
use wio_lite_ai.Shell.Token.Lexer.{Mode, plain, Effect, stop, quiet, emit, effect}

abbrev pub is_plain : Mode → Bool
is_plain plain = true
is_plain _ = false

-- A separator between words leaves the machine outside quotes.
abbrev pub mode_of : Effect → Mode
mode_of stop = plain
mode_of (quiet mode) = mode
mode_of (emit mode) = mode

unfoldable pub next_mode : Mode → ℕ → Mode
unfolding effect
next_mode mode c = mode_of (effect mode c)

unfoldable pub mode_after : Mode → List ℕ → Mode
mode_after mode [] = mode
mode_after mode (c ∷ cs) = mode_after (next_mode mode c) cs

-- The pieces before and behind the first ';' outside quotes.
unfoldable pub cons_piece : ℕ → Option (List ℕ × List ℕ) → Option (List ℕ × List ℕ)
cons_piece c none = none
cons_piece c (some (a, b)) = some (c ∷ a, b)

unfoldable pub cut_at : Mode → List ℕ → Option (List ℕ × List ℕ)
cut_at mode [] = none
cut_at mode (c ∷ cs) =
    if is_plain mode && c == b';'
    then some ([], cs)
    else cons_piece c (cut_at (next_mode mode c) cs)

-- No ';' of the string stands outside quotes.
abbrev pub NoCut : Mode → List ℕ → Type 0
NoCut mode [] = Unit {0}
NoCut mode (c ∷ cs) = (mode ≡ plain → c ≢ b';') × NoCut (next_mode mode c) cs

is_plain→plain : (mode : Mode) → is_plain mode ≡ true → mode ≡ plain
is_plain→plain plain e = refl
is_plain→plain _ e = cc

here→plain :
    (mode : Mode) (c : ℕ) → (is_plain mode && c == b';') ≡ true → (mode ≡ plain) × (c ≡ b';')
here→plain mode c h = (is_plain→plain mode (ground arith), ground arith)

not_here : (mode : Mode) (c : ℕ) → (is_plain mode && c == b';') ≡ false → mode ≡ plain → c ≢ b';'
not_here mode c h e = let h' = rw e at h in ground arith

cons_piece-some :
    (c : ℕ) (o : Option (List ℕ × List ℕ)) (a b : List ℕ)
    → cons_piece c o ≡ some (a, b)
    → (a' : List ℕ) × (o ≡ some (a', b)) × (a ≡ c ∷ a')
unfolding cons_piece
cons_piece-some c none a b e = cc
cons_piece-some c (some (a', b')) a b e = (a', cc, cc)

-- What is cut off joins to the line again, ends outside quotes, and holds no earlier cut.
pub cut_at-some :
    (l : List ℕ) (mode : Mode) (a b : List ℕ)
    → cut_at mode l ≡ some (a, b)
    → (l ≡ a ++ b';' ∷ b) × (mode_after mode a ≡ plain) × NoCut mode a
unfolding cut_at mode_after
cut_at-some [] mode a b e = cc
cut_at-some (c ∷ cs) mode a b e = elim (Bool-cases (is_plain mode && c == b';')) [
  | inl h ↦
      let (p, q) = here→plain mode c h in
      let e' : ◌≡◌ {A = Option (List ℕ × List ℕ)} (some ([], cs)) (some (a, b)) = ground arith in
      let a_is : [] ≡ a = cc in
      subst (λ x. (c ∷ cs ≡ x ++ b';' ∷ b) × (mode_after mode x ≡ plain) × NoCut mode x) a_is
        (ground arith, p, tt)
  | inr h ↦
      let (a', e', a_is) = cons_piece-some c (cut_at (next_mode mode c) cs) a b (ground arith) in
      let (joins, ends, none_before) = cut_at-some cs (next_mode mode c) a' b e' in
      subst (λ x. (c ∷ cs ≡ x ++ b';' ∷ b) × (mode_after mode x ≡ plain) × NoCut mode x) (sym a_is)
        (ap (λ xs. c ∷ xs) joins, ends, (not_here mode c h, none_before))
]

pub cut_at-none : (l : List ℕ) (mode : Mode) → cut_at mode l ≡ none → NoCut mode l
unfolding cut_at cons_piece
cut_at-none [] mode e = tt
cut_at-none (c ∷ cs) mode e = elim (Bool-cases (is_plain mode && c == b';')) [
  | inl h ↦ let bad : ⊥ = ground arith in absurd bad
  | inr h ↦ (not_here mode c h, cut_at-none cs (next_mode mode c) (ground arith))
]
