-- ===== src/Shell/Parse/Walk.antt =====
-- What holds between two tokens of cli_parse, and what a call of next_token does to it.
use wio_lite_ai.Base.{
  ℕ, ◌+◌, ◌≤◌, ◌<◌, ◌≡◌, refl, sym, arith, ◌⊎◌, inr, some, List, [], ◌∷◌, ◌++◌, append-nil, length,
  Mem, CStr, CStr-suffix, CStr-at,
}
use wio_lite_ai.Shell.Token.{line_end, token, failed, next_token, unterminated_quote}
use wio_lite_ai.Shell.Token.Lexer.{Lexed, ended, open_quote, found, lex}
use wio_lite_ai.Shell.Token.Extract.{Finds, next_token_lem}
use wio_lite_ai.Shell.Token.Tokenize.{Strings, Strings-keep, Strings-append}
use wio_lite_ai.Shell.Parse.{State, Result, Flow, go, exit, stuck, ◌>>=◌, push}

-- The words that the byte machine finds one after another at the front of `text`, and what is left
-- of it; nothing is left of blanks.
pub data Reads (text : List ℕ) : List (List ℕ) → List ℕ → Type 0 where
  from_start : Reads text [] text
  one_more :
      {words : List (List ℕ)} {l t r : List ℕ}
      → Reads text words l
      → lex l ≡ found t r
      → Reads text (words ++ t ∷ []) r
  blanks :
      {words : List (List ℕ)} {l : List ℕ}
      → Reads text words l
      → lex l ≡ ended
      → Reads text words []

-- The unread line is `l`, the words read from `text` before it are `words`, and they are the strings
-- at the stored addresses.
pub record At (text : List ℕ) (st : State) (words : List (List ℕ)) (l : List ℕ) : Type 0 where
  pub reads : Reads text words l
  pub unread : CStr st.mem st.rd l
  pub room : (st.wr ≤ st.rd) ⊎ (l ≡ [])
  pub strings : Strings st.mem st.wr st.argv words

pub data Fetched (text : List ℕ) (f : ℕ) (st : State) (words : List (List ℕ)) (l : List ℕ)
    : Type 0 where
  finished :
      (rd : ℕ)
      → next_token f st.mem st.rd st.wr ≡ some (line_end rd)
      → At text (record st { rd = rd }) words []
      → lex l ≡ ended
      → Fetched text f st words l
  broken :
      (m : Mem)
      → next_token f st.mem st.rd st.wr ≡ some (failed unterminated_quote m)
      → lex l ≡ open_quote
      → Fetched text f st words l
  another :
      (t r : List ℕ) (m : Mem) (rd wr : ℕ)
      → next_token f st.mem st.rd st.wr ≡ some (token st.wr m rd wr)
      → At text (push st st.wr m rd wr) (words ++ t ∷ []) r
      → CStr m st.wr t
      → lex l ≡ found t r
      → Fetched text f st words l

fetched :
    (text : List ℕ) (f : ℕ) (st : State) (words : List (List ℕ)) (l : List ℕ)
    → At text st words l
    → (x : Lexed) → lex l ≡ x
    → Finds st.mem (st.rd + length l) st.wr (next_token f st.mem st.rd st.wr) x
    → Fetched text f st words l
fetched text f st words l a ended e h =
    finished (st.rd + length l) h
      (record {
        reads = blanks a.reads e;
        unread =
            CStr-at st.mem [] (omega arith)
              (CStr-suffix st.mem st.rd l l [] (sym (append-nil l)) a.unread);
        room = inr refl;
        strings = a.strings;
      })
      e
fetched text f st words l a open_quote e (m, h) = broken m h e
fetched text f st words l a (found t r) e (m, rd, wr, h, g) =
    another t r m rd wr h
      (record {
        reads = one_more a.reads e;
        unread = g.rest_is;
        room = g.room;
        strings =
            Strings-append m wr st.wr t st.argv words
              (Strings-keep st.mem m st.wr wr st.argv words (omega (arith, g.next_is)) g.below
                a.strings)
              g.token_is (omega (arith, g.next_is));
      })
      g.token_is e

-- A call of `next_token` ends the line, finds an open quote, or adds a word.
pub fetch :
    (text : List ℕ) (f : ℕ) (st : State) (words : List (List ℕ)) (l : List ℕ)
    → At text st words l
    → length l < f
    → Fetched text f st words l
fetch text f st words l a k =
    fetched text f st words l a (lex l) refl
      (next_token_lem f st.mem st.rd st.wr l a.unread a.room k)

-- A part of the function goes on with `P`, or returns with `Q`; it does not run out of fuel.
abbrev pub Ends {ℓ} : {A : Type ℓ} → (A → Type 0) → (Result → Type 0) → Flow A → Type 0
Ends P Q (go a) = P a
Ends P Q (exit r) = Q r
Ends P Q stuck = ⊥

pub Ends-bind {ℓ κ} :
    {A : Type ℓ} {B : Type κ} (P : A → Type 0) (P' : B → Type 0) (Q : Result → Type 0) (m : Flow A)
    (k : A → Flow B)
    → Ends P Q m
    → ((a : A) → P a → Ends P' Q (k a))
    → Ends P' Q (m >>= k)
Ends-bind P P' Q (go a) k h g = g a h
Ends-bind P P' Q (exit r) k h g = h
Ends-bind P P' Q stuck k h g = h
