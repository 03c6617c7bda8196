-- ===== src/Shell/Token/Lexer.antt =====
-- The quoting rules of the shell as a machine that reads one byte at a time, and the token at
-- the front of a string by that machine, with no buffer.
use wio_lite_ai.Base.{ℕ, true, false, Option, none, some, List, [], ◌∷◌, ◌==◌, if◌then◌else◌}
use wio_lite_ai.Shell.Token.{is_space}

pub data Mode : Type 0 where
  plain double single plain_escape double_escape : Mode

-- What a byte does: it ends the token, it is quoting and leaves no trace, or it stands for itself.
pub data Effect : Type 0 where
  stop : Effect
  quiet : Mode → Effect
  emit : Mode → Effect

unfoldable pub effect : Mode → ℕ → Effect
unfolding is_space
effect plain c =
    if is_space c
    then stop
    else if c == b'"'
    then quiet double
    else if c == b'\''
    then quiet single
    else if c == b'\\'
    then quiet plain_escape
    else emit plain
effect double c =
    if c == b'"' then quiet plain else if c == b'\\' then quiet double_escape else emit double
effect single c = if c == b'\'' then quiet plain else emit single
effect plain_escape c = emit plain
effect double_escape c = emit double

-- The token and what is left behind its separator; `none` for an open quote. A backslash at the
-- end of the line stands for itself.
unfoldable pub scan_end : Mode → Option (List ℕ × List ℕ)
scan_end plain = some ([], [])
scan_end plain_escape = some (b'\\' ∷ [], [])
scan_end _ = none

unfoldable pub cons_token : ℕ → Option (List ℕ × List ℕ) → Option (List ℕ × List ℕ)
cons_token c none = none
cons_token c (some (t, r)) = some (c ∷ t, r)

abbrev pub absorb :
    ℕ → List ℕ → (Mode → Option (List ℕ × List ℕ)) → Effect → Option (List ℕ × List ℕ)
absorb c cs further stop = some ([], cs)
absorb c cs further (quiet mode) = further mode
absorb c cs further (emit mode) = cons_token c (further mode)

unfoldable pub scan : Mode → List ℕ → Option (List ℕ × List ℕ)
unfolding effect scan_end cons_token
scan mode [] = scan_end mode
scan mode (c ∷ cs) = absorb c cs (λ mode'. scan mode' cs) (effect mode c)

-- The bytes that stand for themselves before the token's end or the end of the line.
unfoldable pub partial : Mode → List ℕ → List ℕ
unfolding effect
partial mode [] = []
partial mode (c ∷ cs) = elim (effect mode c) [
  | stop ↦ []
  | quiet mode' ↦ partial mode' cs
  | emit mode' ↦ c ∷ partial mode' cs
]

-- The front of a line: nothing but blanks, a token and what is left, or an open quote.
pub data Lexed : Type 0 where
  ended open_quote : Lexed
  found : (t r : List ℕ) → Lexed

unfoldable pub drop_spaces : List ℕ → List ℕ
drop_spaces [] = []
drop_spaces (c ∷ cs) = elim (is_space c) [ true ↦ drop_spaces cs | false ↦ c ∷ cs ]

abbrev pub lexed : Option (List ℕ × List ℕ) → Lexed
lexed none = open_quote
lexed (some (t, r)) = found t r

abbrev pub lex_at : List ℕ → Lexed
lex_at [] = ended
lex_at (c ∷ cs) = lexed (scan plain (c ∷ cs))

unfoldable pub lex : List ℕ → Lexed
lex l = lex_at (drop_spaces l)
