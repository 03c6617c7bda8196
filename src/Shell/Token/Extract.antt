-- ===== src/Shell/Token/Extract.antt =====
-- next_token finds the token that the byte machine finds, terminates it, and leaves the rest of
-- the line as it was.
use wio_lite_ai.Base.{
  ℕ, zero, suc, ◌+◌, ◌-◌, ◌≤◌, ◌<◌, ◌≡◌, refl, subst, ap, ◌∙◌, arith, ◌⊎◌, inl, inr, Option, some,
  List, [], ◌∷◌, ◌++◌, length, length-append, Mem, store, write, CStr, CStr-store_nul, CStr-write,
  CStr-suffix, CStr-NonNul, CStr-terminated, write-below, write-above, store-ne, Option-cases,
  Bool-cases,
}
use wio_lite_ai.Shell.Token.{
  is_space, skip_spaces, Next, line_end, token, failed, terminate, next_token_at, next_token,
  unterminated_quote,
}
use wio_lite_ai.Shell.Token.Lexer.{
  plain, scan, partial, Lexed, ended, open_quote, found, drop_spaces, lex_at, lex,
}
use wio_lite_ai.Shell.Token.InPlace.{loop_plain}
use wio_lite_ai.Shell.Token.Scanned.{Takes, scan-Takes}

pub length-drop_spaces : (l : List ℕ) → length (drop_spaces l) ≤ length l
unfolding drop_spaces
length-drop_spaces [] = omega arith
length-drop_spaces (c ∷ cs) = ground (arith, length-drop_spaces cs)

pub skip_spaces_lem :
    (l : List ℕ) (f : ℕ) (m : Mem) (rd : ℕ)
    → CStr m rd l
    → length l < f
    → skip_spaces f m rd ≡ some (rd + length l - length (drop_spaces l))
unfolding skip_spaces drop_spaces is_space
skip_spaces_lem l zero m rd s h = absurd (omega arith)
skip_spaces_lem [] (suc f) m rd s h = ground arith
skip_spaces_lem (c ∷ cs) (suc f) m rd s h =
    ground (arith, skip_spaces_lem cs f m (rd + 1) s.2, length-drop_spaces cs)

drop_spaces-suffix : (l : List ℕ) → (pre : List ℕ) × (l ≡ pre ++ drop_spaces l)
unfolding drop_spaces
drop_spaces-suffix [] = ([], refl)
drop_spaces-suffix (c ∷ cs) = elim (Bool-cases (is_space c)) [
  | inl e ↦
      let (pre, h) = drop_spaces-suffix cs in (c ∷ pre, rw (e, drop_spaces) (ap (λ xs. c ∷ xs) h))
  | inr e ↦ ([], rw (e, drop_spaces))
]

pub drop_spaces-CStr :
    (l : List ℕ) (m : Mem) (rd : ℕ)
    → CStr m rd l
    → CStr m (rd + length l - length (drop_spaces l)) (drop_spaces l)
drop_spaces-CStr l m rd s =
    let (pre, h) = drop_spaces-suffix l in CStr-suffix m rd l pre (drop_spaces l) h s

-- What a token leaves in memory: its own string, the rest of the line as it was, the bytes before
-- the token and behind the line untouched, and room up to the next read.
pub record Terminated (m m' : Mem) (e wr rd' wr' : ℕ) (t r : List ℕ) : Type 0 where
  pub token_is : CStr m' wr t
  pub rest_is : CStr m' rd' r
  pub below : (q : ℕ) → q < wr → m' q ≡ m q
  pub above : (q : ℕ) → e < q → m' q ≡ m q
  pub room : (wr' ≤ rd') ⊎ (r ≡ [])
  pub end_is : rd' + length r ≡ e
  pub next_is : wr' ≡ wr + length t + 1

abbrev pub Finds : (m : Mem) (e wr : ℕ) → Option Next → Lexed → Type 0
Finds m e wr o ended = o ≡ some (line_end e)
Finds m e wr o open_quote = (m' : Mem) × (o ≡ some (failed unterminated_quote m'))
Finds m e wr o (found t r) =
    (m' : Mem) × (rd' : ℕ) × (wr' : ℕ) × (o ≡ some (token wr m' rd' wr'))
    × Terminated m m' e wr rd' wr' t r

terminated_lem :
    (m : Mem) (rd wr : ℕ) (l t r : List ℕ)
    → CStr m rd l
    → wr ≤ rd
    → Takes l t r 0
    → let e = rd + length l in
      let end = wr + length t in
      Terminated m (store (write m wr t) end 0) e wr (e - length r) (end + 1) t r
terminated_lem m rd wr l t r s h k = record {
  token_is = CStr-terminated m wr (wr + length t) t refl (k.bytes (CStr-NonNul m rd l s));
  rest_is = CStr-store_nul (write m wr t) (wr + length t) (rd + length l - length r) r rest_apart (
      CStr-write m wr t (rd + length l - length r) r (omega (arith, lengths, k.fits))
        (CStr-suffix m rd l k.read r k.splits s));
  below = λ q b. store-ne (write m wr t) (wr + length t) 0 q (omega arith) ∙ write-below m wr t q b;
  above = λ q a.
      store-ne (write m wr t) (wr + length t) 0 q (omega (arith, lengths, k.fits))
      ∙ write-above m wr t q (omega (arith, lengths, k.fits));
  room = ground (arith, lengths, k.separated, k.fits);
  end_is = omega (arith, lengths);
  next_is = refl;
}
  where
    lengths : length l ≡ length k.read + length r
    lengths = ap length k.splits ∙ length-append k.read r

    rest_apart : (wr + length t < rd + length l - length r) ⊎ (r ≡ [])
    rest_apart = ground (arith, lengths, k.separated, k.fits)

next_token_at_lem :
    (f : ℕ) (m : Mem) (rd wr : ℕ) (l : List ℕ)
    → CStr m rd l
    → (wr ≤ rd) ⊎ (l ≡ [])
    → length l < f
    → Finds m (rd + length l) wr (next_token_at f m rd wr) (lex_at l)
unfolding next_token_at terminate
next_token_at_lem f m rd wr [] s h k = ground arith
next_token_at_lem f m rd wr (c ∷ cs) s h k = elim (Option-cases (scan plain (c ∷ cs))) [
  | inl e ↦
      rw e (write m wr (partial plain (c ∷ cs)), ground (arith, e, loop_plain (c ∷ cs) f m rd wr s))
  | inr ((t, r), e) ↦ rw e (
    store (write m wr t) (wr + length t) 0,
    rd + length (c ∷ cs) - length r,
    wr + length t + 1,
    ground (arith, e, loop_plain (c ∷ cs) f m rd wr s),
    terminated_lem m rd wr (c ∷ cs) t r s (ground arith) (scan-Takes (c ∷ cs) plain t r e),
  )
]

-- `next_token` on a string in memory, writing no further than it reads unless the string is empty,
-- with more fuel than the string is long, does not run out. It finds what the
-- byte machine finds at the front of the line, and a token's string, the rest of the line and all
-- the other bytes are as `Terminated` says.
pub next_token_lem :
    (f : ℕ) (m : Mem) (rd wr : ℕ) (l : List ℕ)
    → CStr m rd l
    → (wr ≤ rd) ⊎ (l ≡ [])
    → length l < f
    → Finds m (rd + length l) wr (next_token f m rd wr) (lex l)
unfolding lex next_token drop_spaces
next_token_lem f m rd wr l s h k =
    subst (λ e. Finds m e wr (next_token f m rd wr) (lex_at l')) same_end
      (rw (skip_spaces_lem l f m rd s k, next_token)
        (next_token_at_lem f m (rd + length l - length l') wr l' (drop_spaces-CStr l m rd s) behind
          (omega (arith, length-drop_spaces l))))
  where
    l' : List ℕ
    l' = drop_spaces l

    same_end : rd + length l - length l' + length l' ≡ rd + length l
    same_end = omega (arith, length-drop_spaces l)

    behind : (wr ≤ rd + length l - length l') ⊎ (l' ≡ [])
    behind = elim h [ inl a ↦ inl (omega (arith, length-drop_spaces l)) | inr e ↦ inr (rw e refl) ]
