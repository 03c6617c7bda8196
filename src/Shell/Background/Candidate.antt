-- ===== src/Shell/Background/Candidate.antt =====
-- The '&' that sends a segment to the background, found from the segment's end by the tokenizer's
-- rules of quoting.
use wio_lite_ai.Base.{
  ℕ, ◌+◌, Bool, true, false, ◌&&◌, ◌||◌, Option, none, some, List, [], ◌∷◌, ◌==◌, if◌then◌else◌,
}
use wio_lite_ai.Shell.Token.{is_space}
use wio_lite_ai.Shell.Token.Lexer.{Mode, plain}
use wio_lite_ai.Shell.Segment.Modes.{is_plain, next_mode}

abbrev pub is_nil : List ℕ → Bool
is_nil [] = true
is_nil (c ∷ cs) = false

-- Whitespace outside quotes, and a backslash there at the segment's end, count for nothing.
abbrev pub is_ignored : Mode → ℕ → List ℕ → Bool
is_ignored mode c cs = is_plain mode && (is_space c || c == b'\\' && is_nil cs)

-- A byte that counts: its address, and whether it is an '&' outside quotes that no backslash escapes.
abbrev pub Mark : Type 0
Mark = ℕ × Bool

unfoldable pub marks : Mode → List ℕ → ℕ → List Mark
marks mode [] i = []
marks mode (c ∷ cs) i =
    let rest = marks (next_mode mode c) cs (i + 1) in
    if is_ignored mode c cs then rest else (i, is_plain mode && c == b'&') ∷ rest

-- A list put in front of another, the last one first.
abbrev pub onto : List Mark → List Mark → List Mark
onto [] seen = seen
onto (x ∷ xs) seen = onto xs (x ∷ seen)

-- Whether the last mark is an '&', and the one before it.
abbrev pub is_amp : List Mark → Bool
is_amp [] = false
is_amp ((a, b) ∷ seen) = b

abbrev pub before : List Mark → List Mark
before [] = []
before (x ∷ seen) = seen

abbrev pub candidate : List Mark → Option ℕ
candidate [] = none
candidate ((a, b) ∷ seen) = if b then some a else none

-- The address of the last byte that counts, if it is an '&' and the one before it is none.
abbrev pub operator : List Mark → Option ℕ
operator seen = if is_amp (before seen) then none else candidate seen

-- The operator of a segment at `p`.
abbrev pub operator_of : List ℕ → ℕ → Option ℕ
operator_of l p = operator (onto (marks plain l p) [])
