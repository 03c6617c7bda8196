-- ===== src/Shell/Token/Tests.antt =====
-- The tokenizer at concrete lines.
use wio_lite_ai.Base.{
  ℕ, ◌≡◌, refl, arith, inl, Option, none, some, List, [], ◌∷◌, CStr, codes, load,
}
use wio_lite_ai.Shell.Token.{
  Status, too_many_tokens, unterminated_quote, Tokens, tokens, refused, tokenize, token_loop, round,
  skip_spaces, next_token,
}
use wio_lite_ai.Shell.Token.Lexer.{lex}
use wio_lite_ai.Shell.Token.Extract.{Finds, next_token_lem}
use wio_lite_ai.Shell.Token.Tokenize.{Outcome, Splits, Returns, tokenize_lem}

abbrev line : List ℕ
line = codes "say \"a;b\" c\\ d"

abbrev addresses : Option Tokens → List ℕ
addresses (some (tokens argv m)) = argv
addresses _ = []

abbrev status : Option Tokens → Option Status
status (some (refused e m)) = some e
status _ = none

-- Three words, each moved to the left over the quoting bytes before it.
three_words : addresses (tokenize 40 (load "say \"a;b\" c\\ d") 0 5) ≡ 0 ∷ 4 ∷ 8 ∷ []
unfolding tokenize next_token skip_spaces token_loop round
three_words = refl

two_allowed : status (tokenize 40 (load "say \"a;b\" c\\ d") 0 2) ≡ some too_many_tokens
unfolding tokenize next_token skip_spaces token_loop round
two_allowed = refl

open_quote_refused : status (tokenize 40 (load "say 'a") 0 5) ≡ some unterminated_quote
unfolding tokenize next_token skip_spaces token_loop round
open_quote_refused = refl

line-CStr : CStr (load "say \"a;b\" c\\ d") 0 line
line-CStr = omega arith

next_token_lem_example :
    Finds (load "say \"a;b\" c\\ d") 14 0 (next_token 40 (load "say \"a;b\" c\\ d") 0 0) (lex line)
next_token_lem_example =
    next_token_lem 40 (load "say \"a;b\" c\\ d") 0 0 line line-CStr (inl (omega arith))
      (omega arith)

tokenize_lem_example :
    (o : Outcome) × Splits 5 0 line o × Returns (tokenize 40 (load "say \"a;b\" c\\ d") 0 5) [] o
tokenize_lem_example = tokenize_lem 40 5 (load "say \"a;b\" c\\ d") 0 line line-CStr (omega arith)
