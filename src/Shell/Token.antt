-- ===== src/Shell/Token.antt =====
-- next_token and cli_tokenize of shell/core/cli_parse.c: the tokenizer, which works in place on
-- the line. The line lies in memory, a `char *` is an address, and the bytes are unsigned.
-- A loop takes fuel, and gives `none` when it runs out.
pub mod Lexer
pub mod InPlace
pub mod Scanned
pub mod Extract
pub mod Tokenize
mod Tests
use wio_lite_ai.Base.{
  ℕ, zero, suc, ◌+◌, ◌||◌, Bool, true, false, Option, none, some, List, [], ◌∷◌, ◌++◌, ◌==◌, leb,
  if◌then◌else◌, Mem, store, length,
}

-- `enum cli_parse_status`
pub data Status : Type 0 where
  ok empty not_found no_handler wrong_args too_many_tokens nesting_too_deep : Status
  unterminated_quote : Status

unfoldable pub is_space : ℕ → Bool
is_space c = c == b' ' || c == b'\t'

-- Where one round of the `for (;;)` loop goes: round again, out of the loop, or out of the
-- function. `quote` is 0 outside quotes, else the quote character.
pub data Round : Type 0 where
  again : (quote : ℕ) (m : Mem) (rd wr : ℕ) → Round
  leave : (m : Mem) (rd wr : ℕ) → Round
  unterminated : (m : Mem) → Round

unfoldable pub round_plain : Mem → ℕ → ℕ → Round
round_plain m rd wr =
    let c = m rd in
    if c == 0
    then leave m rd wr
    else if is_space c
    then leave m (rd + 1) wr
    else if c == b'"' || c == b'\''
    then again c m (rd + 1) wr
    else if c == b'\\'
    then (if m (rd + 1) == 0
        then leave (store m wr b'\\') (rd + 1) (wr + 1)
        else again 0 (store m wr (m (rd + 1))) (rd + 2) (wr + 1))
    else again 0 (store m wr c) (rd + 1) (wr + 1)

unfoldable pub round_double : Mem → ℕ → ℕ → Round
round_double m rd wr =
    let c = m rd in
    if c == 0
    then unterminated m
    else if c == b'"'
    then again 0 m (rd + 1) wr
    else if c == b'\\'
    then (if m (rd + 1) == 0
        then unterminated m
        else again b'"' (store m wr (m (rd + 1))) (rd + 2) (wr + 1))
    else again b'"' (store m wr c) (rd + 1) (wr + 1)

unfoldable pub round_single : Mem → ℕ → ℕ → Round
round_single m rd wr =
    let c = m rd in
    if c == 0
    then unterminated m
    else if c == b'\''
    then again 0 m (rd + 1) wr
    else again b'\'' (store m wr c) (rd + 1) (wr + 1)

unfoldable pub round : ℕ → Mem → ℕ → ℕ → Round
unfolding round_plain round_double round_single is_space
round quote m rd wr =
    if quote == 0
    then round_plain m rd wr
    else if quote == b'"'
    then round_double m rd wr
    else round_single m rd wr

unfoldable pub token_loop : ℕ → ℕ → Mem → ℕ → ℕ → Option Round
token_loop zero quote m rd wr = none
token_loop (suc f) quote m rd wr = elim (round quote m rd wr) [
  | again q m' rd' wr' ↦ token_loop f q m' rd' wr'
  | leave m' rd' wr' ↦ some (leave m' rd' wr')
  | unterminated m' ↦ some (unterminated m')
]

unfoldable pub skip_spaces : ℕ → Mem → ℕ → Option ℕ
skip_spaces zero m rd = none
skip_spaces (suc f) m rd = elim (is_space (m rd)) [
  | true ↦ skip_spaces f m (rd + 1)
  | false ↦ some rd
]

-- What `next_token` returns and writes through its arguments: the end of the line at `rd`, a
-- token with the new cursors, or an error with the memory that the loop leaves.
pub data Next : Type 0 where
  line_end : (rd : ℕ) → Next
  token : (tok : ℕ) (m : Mem) (rd wr : ℕ) → Next
  failed : Status → Mem → Next

-- Behind the loop: the token is terminated.
terminate : ℕ → Option Round → Option Next
terminate tok none = none
terminate tok (some (again q m rd wr)) = none
terminate tok (some (leave m rd wr)) = some (token tok (store m wr 0) rd (wr + 1))
terminate tok (some (unterminated m)) = some (failed unterminated_quote m)

next_token_at : ℕ → Mem → ℕ → ℕ → Option Next
unfolding terminate
next_token_at f m rd wr =
    if m rd == 0 then some (line_end rd) else terminate wr (token_loop f 0 m rd wr)

unfoldable pub next_token : ℕ → Mem → ℕ → ℕ → Option Next
unfolding next_token_at
next_token f m rd wr = elim (skip_spaces f m rd) [
  | none ↦ none
  | some rd' ↦ next_token_at f m rd' wr
]

-- `cli_tokenize`: the addresses stored in `argv`, in order, with the memory, or an error.
pub data Tokens : Type 0 where
  tokens : (argv : List ℕ) (m : Mem) → Tokens
  refused : Status → Mem → Tokens

pub tokenize_loop : ℕ → ℕ → Mem → ℕ → ℕ → List ℕ → Option Tokens
tokenize_loop zero max_argc m rd wr argv = none
tokenize_loop (suc f) max_argc m rd wr argv = elim (next_token f m rd wr) [
  | none ↦ none
  | some (line_end rd') ↦ some (tokens argv m)
  | some (failed e m') ↦ some (refused e m')
  | some (token tok m' rd' wr') ↦
      let rest = tokenize_loop f max_argc m' rd' wr' (argv ++ tok ∷ []) in
      if leb max_argc (length argv) then some (refused too_many_tokens m') else rest
]

pub tokenize : ℕ → Mem → ℕ → ℕ → Option Tokens
unfolding tokenize_loop
tokenize f m line max_argc = tokenize_loop f max_argc m line line []
