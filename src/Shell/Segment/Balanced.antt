-- ===== src/Shell/Segment/Balanced.antt =====
-- The segmenter and the tokenizer agree on the quoting rules: a piece that ends outside quotes
-- is never refused for an open quote.
use wio_lite_ai.Base.{
  ℕ, ◌+◌, ◌<◌, ◌≡◌, ◌≢◌, refl, sym, subst, ap, ◌∙◌, arith, inl, inr, Option, none, some, List, [],
  ◌∷◌, ◌++◌, length, Mem, CStr, length-append,
}
use wio_lite_ai.Shell.Token.Lexer.{
  Mode, plain, plain_escape, Effect, stop, quiet, emit, effect, scan, scan_end, cons_token, absorb,
  Lexed, ended, open_quote, found, lex, lex_at, lexed, drop_spaces,
}
use wio_lite_ai.Shell.Token.{tokenize, unterminated_quote}
use wio_lite_ai.Shell.Token.Tokenize.{
  Outcome, words, rejected, with_word, Splits, at_end, at_quote, at_limit, word, Returns,
  tokenize_lem,
}
use wio_lite_ai.Shell.Segment.{Segment, next_segment}
use wio_lite_ai.Shell.Segment.InPlace.{next_segment_lem}
use wio_lite_ai.Shell.Segment.Modes.{mode_of, next_mode, mode_after}

-- What is left behind a token of a closed string is closed, and there is a token.
abbrev Closed : Option (List ℕ × List ℕ) → Type 0
Closed none = ⊥
Closed (some (t, r)) = mode_after plain r ≡ plain

cons_token-Closed : (c : ℕ) (o : Option (List ℕ × List ℕ)) → Closed o → Closed (cons_token c o)
unfolding cons_token
cons_token-Closed c none h = h
cons_token-Closed c (some (t, r)) h = h

absorb-Closed :
    (c : ℕ) (cs : List ℕ) (eff : Effect)
    → ((mode' : Mode) → mode_after mode' cs ≡ plain → Closed (scan mode' cs))
    → mode_after (mode_of eff) cs ≡ plain
    → Closed (absorb c cs (λ mode'. scan mode' cs) eff)
absorb-Closed c cs stop ih h = h
absorb-Closed c cs (quiet mode') ih h = ih mode' h
absorb-Closed c cs (emit mode') ih h = cons_token-Closed c (scan mode' cs) (ih mode' h)

at_end-Closed : (mode : Mode) → mode ≡ plain → Closed (scan_end mode)
unfolding scan_end mode_after
at_end-Closed plain h = refl
at_end-Closed plain_escape h = refl
at_end-Closed _ h = cc

scan-Closed : (l : List ℕ) (mode : Mode) → mode_after mode l ≡ plain → Closed (scan mode l)
unfolding scan mode_after next_mode
scan-Closed [] mode h = at_end-Closed mode h
scan-Closed (c ∷ cs) mode h = absorb-Closed c cs (effect mode c) (scan-Closed cs) h

mode_after-drop_spaces : (l : List ℕ) → mode_after plain (drop_spaces l) ≡ mode_after plain l
unfolding drop_spaces mode_after next_mode effect
mode_after-drop_spaces [] = refl
mode_after-drop_spaces (c ∷ cs) = ground (arith, mode_after-drop_spaces cs)

abbrev ClosedFront : Lexed → Type 0
ClosedFront ended = Unit {0}
ClosedFront open_quote = ⊥
ClosedFront (found t r) = mode_after plain r ≡ plain

lexed-Closed : (o : Option (List ℕ × List ℕ)) → Closed o → ClosedFront (lexed o)
lexed-Closed none h = h
lexed-Closed (some (t, r)) h = h

lex_at-Closed : (l : List ℕ) → mode_after plain l ≡ plain → ClosedFront (lex_at l)
lex_at-Closed [] h = tt
lex_at-Closed (c ∷ cs) h = lexed-Closed (scan plain (c ∷ cs)) (scan-Closed (c ∷ cs) plain h)

lex-Closed : (l : List ℕ) → mode_after plain l ≡ plain → ClosedFront (lex l)
unfolding lex
lex-Closed l h = lex_at-Closed (drop_spaces l) (mode_after-drop_spaces l ∙ h)

with_word-open :
    (t : List ℕ) (o : Outcome)
    → with_word t o ≡ rejected unterminated_quote
    → o ≡ rejected unterminated_quote
with_word-open t (words ws) e = cc
with_word-open t (rejected x) e = e

-- No split of a string that ends outside quotes is refused for an open quote.
pub Splits-closed :
    {max n : ℕ} {l : List ℕ} {o : Outcome}
    → mode_after plain l ≡ plain
    → Splits max n l o
    → o ≢ rejected unterminated_quote
Splits-closed h (at_end e) = λ x. cc
Splits-closed h (at_quote {l = l} e) = λ x. subst ClosedFront e (lex-Closed l h)
Splits-closed h (at_limit e k) = λ x. cc
Splits-closed h (word {l = l} {t = t} {o = o} e lt s eq) =
    λ x. Splits-closed (subst ClosedFront e (lex-Closed l h)) s (with_word-open t o (sym eq ∙ x))

-- With fuel for the line, a segment that `cli_next_segment` has cut off it at a ';' tokenizes, with whatever room for
-- words, and the tokenizer does not refuse it for an open quote.
pub cut-tokenize :
    (f f' max : ℕ) (m : Mem) (p q : ℕ) (l : List ℕ) (s : Segment)
    → CStr m p l
    → length l < f
    → length l + 1 < f'
    → next_segment f m (some p) ≡ some s
    → s.cursor ≡ some q
    → (o : Outcome) × Returns (tokenize f' s.mem p max) [] o × (o ≢ rejected unterminated_quote)
cut-tokenize f f' max m p q l s c k k' e h =
    let (s', e', at_start, where_cut) = next_segment_lem f m p l c k in
    let same : s' ≡ s = cc in
    elim where_cut [
      | inl no_cut ↦ cc (no_cut.0, h, same)
      | inr (q', at_cursor, cut) ↦
          let (o, splits, returns) =
            tokenize_lem f' max s'.mem p cut.piece cut.piece_is (shorter _ _ cut.joins) in
          (
            o,
            subst (λ t. Returns (tokenize f' t.mem p max) [] o) same returns,
            Splits-closed cut.outside_quotes splits,
          )
    ]
  where
    shorter : (a b : List ℕ) → l ≡ a ++ b';' ∷ b → length a + 1 < f'
    shorter a b e = omega (arith, ap length e, length-append a (b';' ∷ b))
