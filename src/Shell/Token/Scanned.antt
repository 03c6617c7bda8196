-- ===== src/Shell/Token/Scanned.antt =====
-- What the byte machine takes from a string and what it leaves.
use wio_lite_ai.Base.{
  ℕ, ◌+◌, ◌≤◌, ◌<◌, ◌≡◌, refl, ap, subst₂, arith, ◌⊎◌, inl, inr, Option, none, some, List, [], ◌∷◌,
  ◌++◌, length, NonNul,
}
use wio_lite_ai.Shell.Token.Lexer.{
  Mode, plain, plain_escape, Effect, stop, quiet, emit, effect, scan, scan_end, cons_token, absorb,
}

-- The byte that a mode still owes at the end of the line.
abbrev pending : Mode → ℕ
pending plain_escape = 1
pending _ = 0

-- What was scanned of `l`: `t` is no longer than what was read, and shorter where something is
-- left; what is left is an end of `l`.
pub record Takes (l t r : List ℕ) (owed : ℕ) : Type 0 where
  pub read : List ℕ
  pub splits : l ≡ read ++ r
  pub fits : length t ≤ length read + owed
  pub separated : (r ≡ []) ⊎ (length t < length read + owed)
  pub bytes : NonNul l → NonNul t

Takes-quiet :
    (c owed owed' : ℕ) {cs t r : List ℕ}
    → owed' ≤ owed + 1
    → Takes cs t r owed'
    → Takes (c ∷ cs) t r owed
Takes-quiet c owed owed' h k = record {
  read = c ∷ k.read;
  splits = ap (λ xs. c ∷ xs) k.splits;
  fits = omega arith;
  separated = ground arith;
  bytes = λ z. k.bytes z.1;
}

Takes-emit :
    (c owed owed' : ℕ) {cs t r : List ℕ}
    → owed' ≤ owed
    → Takes cs t r owed'
    → Takes (c ∷ cs) (c ∷ t) r owed
Takes-emit c owed owed' h k = record {
  read = c ∷ k.read;
  splits = ap (λ xs. c ∷ xs) k.splits;
  fits = omega arith;
  separated = ground arith;
  bytes = λ z. (z.0, k.bytes z.1);
}

Takes-stop : (c owed : ℕ) (cs : List ℕ) → Takes (c ∷ cs) [] cs owed
Takes-stop c owed cs = record {
  read = c ∷ [];
  splits = refl;
  fits = omega arith;
  separated = inr (omega arith);
  bytes = λ z. tt;
}

cons_token-some :
    (c : ℕ) (o : Option (List ℕ × List ℕ)) {t r : List ℕ}
    → cons_token c o ≡ some (t, r)
    → (t' : List ℕ) × (o ≡ some (t', r)) × (t ≡ c ∷ t')
unfolding cons_token
cons_token-some c none e = cc
cons_token-some c (some (t', r')) e = (t', cc, cc)

-- What an effect may leave owing.
abbrev Owes : ℕ → Effect → Type 0
Owes owed stop = Unit {0}
Owes owed (quiet mode') = pending mode' ≤ owed + 1
Owes owed (emit mode') = pending mode' ≤ owed

effect-Owes : (mode : Mode) (c : ℕ) → Owes (pending mode) (effect mode c)
unfolding effect
effect-Owes plain c = ground arith
effect-Owes _ c = ground arith

absorb-Takes :
    (mode : Mode) (c : ℕ) (cs : List ℕ) (eff : Effect)
    → Owes (pending mode) eff
    → ((mode' : Mode) (t r : List ℕ) → scan mode' cs ≡ some (t, r) → Takes cs t r (pending mode'))
    → (t r : List ℕ) → absorb c cs (λ mode'. scan mode' cs) eff ≡ some (t, r)
    → Takes (c ∷ cs) t r (pending mode)
absorb-Takes mode c cs stop h ih t r e =
    subst₂ (λ t r. Takes (c ∷ cs) t r (pending mode)) (cc) (cc) (Takes-stop c (pending mode) cs)
absorb-Takes mode c cs (quiet mode') h ih t r e =
    Takes-quiet c (pending mode) (pending mode') h (ih mode' t r e)
absorb-Takes mode c cs (emit mode') h ih t r e =
    let (t', e', et) = cons_token-some c (scan mode' cs) e in
    rw et (Takes-emit c (pending mode) (pending mode') h (ih mode' t' r e'))

at_end-Takes :
    (mode : Mode) (t r : List ℕ) → scan_end mode ≡ some (t, r) → Takes [] t r (pending mode)
unfolding scan_end
at_end-Takes plain t r e = record {
  read = [];
  splits = ground arith;
  fits = ground arith;
  separated = inl (ground arith);
  bytes = λ z. rw (← t_is) tt;
}
  where
    t_is : [] ≡ t
    t_is = cc
at_end-Takes plain_escape t r e = record {
  read = [];
  splits = ground arith;
  fits = ground arith;
  separated = inl (ground arith);
  bytes = λ z. rw (← t_is) (omega arith);
}
  where
    t_is : b'\\' ∷ [] ≡ t
    t_is = cc
at_end-Takes _ t r e = cc

pub scan-Takes :
    (l : List ℕ) (mode : Mode) (t r : List ℕ)
    → scan mode l ≡ some (t, r)
    → Takes l t r (pending mode)
unfolding scan
scan-Takes [] mode t r e = at_end-Takes mode t r e
scan-Takes (c ∷ cs) mode t r e =
    absorb-Takes mode c cs (effect mode c) (effect-Owes mode c)
      (λ mode' t r. scan-Takes cs mode' t r) t r e
