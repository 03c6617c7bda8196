-- ===== src/Shell/Token/Tokenize.antt =====
-- cli_tokenize splits a line into the words that the byte machine finds one after another.

use wio_lite_ai.Base.{
  ℕ, zero, suc, ◌+◌, ◌≤◌, ◌<◌, ◌≡◌, refl, subst, ap, ◌∙◌, arith, ◌⊎◌, inl, inr, Option, some, List,
  [], ◌∷◌, Bool-cases, Option-cases, leb→le, sym, ◌++◌, append_assoc, append-nil, length,
  length-append, Mem, CStr, CStr-agree, leb,
}
use wio_lite_ai.Shell.Token.{
  Status, too_many_tokens, unterminated_quote, next_token, Tokens, tokens, refused, tokenize_loop,
  tokenize,
}
use wio_lite_ai.Shell.Token.Lexer.{
  Lexed, ended, open_quote, found, lex, lex_at, drop_spaces, scan, plain,
}
use wio_lite_ai.Shell.Token.Scanned.{scan-Takes}
use wio_lite_ai.Shell.Token.Extract.{Finds, next_token_lem, length-drop_spaces}

pub data Outcome : Type 0 where
  words : List (List ℕ) → Outcome
  rejected : Status → Outcome

abbrev pub with_word : List ℕ → Outcome → Outcome
with_word t (words ws) = words (t ∷ ws)
with_word t (rejected e) = rejected e

-- The words of a line when `n` words were found before and `max` are allowed. The first fault
-- from the left decides: one word too many, or an open quote.
pub data Splits (max : ℕ) : ℕ → List ℕ → Outcome → Type 0 where
  at_end : {n : ℕ} {l : List ℕ} → lex l ≡ ended → Splits max n l (words [])
  at_quote :
      {n : ℕ} {l : List ℕ} → lex l ≡ open_quote → Splits max n l (rejected unterminated_quote)
  at_limit :
      {n : ℕ} {l t r : List ℕ}
      → lex l ≡ found t r
      → max ≤ n
      → Splits max n l (rejected too_many_tokens)
  word :
      {n : ℕ} {l t r : List ℕ} {o o' : Outcome}
      → lex l ≡ found t r
      → n < max
      → Splits max (n + 1) r o
      → o' ≡ with_word t o
      → Splits max n l o'

-- The strings of a list of addresses, all below `bound`.
abbrev pub Strings : Mem → ℕ → List ℕ → List (List ℕ) → Type 0
Strings m bound [] [] = Unit {0}
Strings m bound (a ∷ as') (w ∷ ws) = CStr m a w × (a + length w < bound) × Strings m bound as' ws
Strings m bound _ _ = ⊥

pub Strings-keep :
    (m m' : Mem) (b b' : ℕ) (as' : List ℕ) (ws : List (List ℕ))
    → b ≤ b'
    → ((q : ℕ) → q < b → m' q ≡ m q)
    → Strings m b as' ws
    → Strings m' b' as' ws
Strings-keep m m' b b' [] [] h k s = tt
Strings-keep m m' b b' [] (w ∷ ws) h k s = s
Strings-keep m m' b b' (a ∷ as') [] h k s = s
Strings-keep m m' b b' (a ∷ as') (w ∷ ws) h k s = (
  CStr-agree m m' a w (λ q x y. k q (omega arith)) s.0,
  omega arith,
  Strings-keep m m' b b' as' ws h k s.2,
)

pub Strings-append :
    (m : Mem) (b a : ℕ) (w : List ℕ) (as' : List ℕ) (ws : List (List ℕ))
    → Strings m b as' ws
    → CStr m a w
    → a + length w < b
    → Strings m b (as' ++ a ∷ []) (ws ++ w ∷ [])
Strings-append m b a w [] [] s c h = (c, h, tt)
Strings-append m b a w [] (v ∷ ws) s c h = absurd s
Strings-append m b a w (x ∷ as') [] s c h = absurd s
Strings-append m b a w (x ∷ as') (v ∷ ws) s c h = (s.0, s.1, Strings-append m b a w as' ws s.2 c h)

pub length-Strings :
    (m : Mem) (b : ℕ) (as' : List ℕ) (ws : List (List ℕ))
    → Strings m b as' ws
    → length as' ≡ length ws
length-Strings m b [] [] s = refl
length-Strings m b [] (v ∷ ws) s = absurd s
length-Strings m b (x ∷ as') [] s = absurd s
length-Strings m b (x ∷ as') (v ∷ ws) s = ap suc (length-Strings m b as' ws s.2)

lex_at-shorter : (l t r : List ℕ) → lex_at l ≡ found t r → length r < length l
lex_at-shorter [] t r e = cc
lex_at-shorter (c ∷ cs) t r e = elim (Option-cases (scan plain (c ∷ cs))) [
  | inl h ↦ cc (rw h at e)
  | inr ((t', r'), h) ↦
      let k = scan-Takes (c ∷ cs) plain t' r' h in
      ground (arith, rw h at e, ap length k.splits, length-append k.read r', k.separated, k.fits)
]

-- A token leaves less than it was found in.
pub lex-shorter : (l t r : List ℕ) → lex l ≡ found t r → length r < length l
unfolding lex
lex-shorter l t r e = omega (arith, lex_at-shorter (drop_spaces l) t r e, length-drop_spaces l)

-- What `tokenize_loop` returns: the error, or addresses at which the words stand.
abbrev pub Returns : Option Tokens → List (List ℕ) → Outcome → Type 0
Returns o before (rejected e) = (m : Mem) × (o ≡ some (refused e m))
Returns o before (words ws) =
    (argv : List ℕ) × (m : Mem) × (b : ℕ) × (o ≡ some (tokens argv m))
    × Strings m b argv (before ++ ws)

abbrev Good : ℕ → ℕ → List ℕ → List (List ℕ) → Option Tokens → Type 0
Good max n l before r = (o : Outcome) × Splits max n l o × Returns r before o

Returns-with_word :
    (r : Option Tokens) (before : List (List ℕ)) (t : List ℕ) (o : Outcome)
    → Returns r (before ++ t ∷ []) o
    → Returns r before (with_word t o)
Returns-with_word r before t (rejected e) h = h
Returns-with_word r before t (words ws) (argv, m, b, e, s) =
    (argv, m, b, e, subst (Strings m b argv) (append_assoc before (t ∷ []) ws) s)

-- One round of the loop, by what stands at the front of the line.
module _ (f max : ℕ) (m : Mem) (rd wr : ℕ) (l argv : List ℕ) (before : List (List ℕ)) where
  tokenize_round :
      ((m' : Mem) (rd' wr' : ℕ) (r argv' : List ℕ) (before' : List (List ℕ))
        → CStr m' rd' r
        → (wr' ≤ rd') ⊎ (r ≡ [])
        → length r + 1 < f
        → Strings m' wr' argv' before'
        → Good max (length argv') r before' (tokenize_loop f max m' rd' wr' argv'))
      → length l < f
      → Strings m wr argv before
      → (x : Lexed) → lex l ≡ x
      → Finds m (rd + length l) wr (next_token f m rd wr) x
      → Good max (length argv) l before (tokenize_loop (suc f) max m rd wr argv)
  unfolding tokenize_loop
  tokenize_round ih k b ended e h = (
    words [],
    at_end e,
    (
      argv,
      m,
      wr,
      rw (h, tokenize_loop) refl,
      subst (Strings m wr argv) (sym (append-nil before)) b,
    ),
  )
  tokenize_round ih k b open_quote e (m', h) =
      (rejected unterminated_quote, at_quote e, (m', rw (h, tokenize_loop) refl))
  tokenize_round ih k b (found t r) e (m', rd', wr', h, g) =
      elim (Bool-cases (leb max (length argv))) [
        | inl full ↦ (
          rejected too_many_tokens,
          at_limit e (leb→le max (length argv) full),
          (m', ground (arith, h, full)),
        )
        | inr more ↦
            let kept = Strings-keep m m' wr wr' argv before (omega (arith, g.next_is)) g.below b in
            let all =
              Strings-append m' wr' wr t argv before kept g.token_is (omega (arith, g.next_is)) in
            let shorter : length r + 1 < f = omega (arith, lex-shorter l t r e) in
            let (o, s, d) =
              ih m' rd' wr' r (argv ++ wr ∷ []) (before ++ t ∷ []) g.rest_is g.room shorter all in
            let n = length-append argv (wr ∷ []) in
            let next = tokenize_loop f max m' rd' wr' (argv ++ wr ∷ []) in
            let steps : tokenize_loop (suc f) max m rd wr argv ≡ next = ground (arith, h, more) in
            (
              with_word t o,
              word e (ground (arith, more)) (subst (λ k. Splits max k r o) n s) refl,
              subst (λ q. Returns q before (with_word t o)) (sym steps)
                  (Returns-with_word next before t o d),
            )
      ]

tokenize_loop_lem :
    (f max : ℕ) (m : Mem) (rd wr : ℕ) (l argv : List ℕ) (before : List (List ℕ))
    → CStr m rd l
    → (wr ≤ rd) ⊎ (l ≡ [])
    → length l + 1 < f
    → Strings m wr argv before
    → Good max (length argv) l before (tokenize_loop f max m rd wr argv)
unfolding tokenize_loop
tokenize_loop_lem zero max m rd wr l argv before s h k b = absurd (omega arith)
tokenize_loop_lem (suc f) max m rd wr l argv before s h k b =
    tokenize_round f max m rd wr l argv before
      (λ m' rd' wr' r argv' before'. tokenize_loop_lem f max m' rd' wr' r argv' before')
      (omega arith) b (lex l) refl (next_token_lem f m rd wr l s h (omega arith))

-- `cli_tokenize`, with fuel for the length of the line, returns the words of the line in order,
-- each a string in memory at the address in `argv`, or the first fault from the left.
pub tokenize_lem :
    (f max : ℕ) (m : Mem) (line : ℕ) (l : List ℕ)
    → CStr m line l
    → length l + 1 < f
    → (o : Outcome) × Splits max 0 l o × Returns (tokenize f m line max) [] o
unfolding tokenize
tokenize_lem f max m line l s k =
    tokenize_loop_lem f max m line line l [] [] s (inl (omega arith)) k tt

with_word-words :
    (t : List ℕ) (o : Outcome) (ws : List (List ℕ))
    → words ws ≡ with_word t o
    → (ws' : List (List ℕ)) × (o ≡ words ws') × (ws ≡ t ∷ ws')
with_word-words t (words ws') ws e = (ws', refl, cc)
with_word-words t (rejected x) ws e = cc

-- No more than `max` words are accepted.
pub Splits-bound :
    {max n : ℕ} {l : List ℕ} {o : Outcome} (ws : List (List ℕ))
    → n ≤ max
    → words ws ≡ o
    → Splits max n l o
    → length ws + n ≤ max
Splits-bound ws h e (at_end _) = ground arith
Splits-bound ws h e (at_quote _) = cc
Splits-bound ws h e (at_limit _ _) = cc
Splits-bound ws h e (word {t = t} {o = o} _ lt s eq) =
    let (ws', e', ews) = with_word-words t o ws (e ∙ eq) in
    ground (arith, ews, Splits-bound ws' (omega arith) (sym e') s)
