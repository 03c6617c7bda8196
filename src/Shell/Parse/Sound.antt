-- ===== src/Shell/Parse/Sound.antt =====
-- What each result of cli_parse means.
use wio_lite_ai.Base.{
  ℕ, ◌+◌, ◌-◌, ◌≤◌, ◌<◌, ◌≡◌, ◌⊎◌, true, false, none, some, List, [], ◌∷◌, ◌++◌, length,
}
use wio_lite_ai.Shell.Token.{
  Status, ok, empty, not_found, no_handler, wrong_args, too_many_tokens, nesting_too_deep,
  unterminated_quote,
}
use wio_lite_ai.Shell.Token.Lexer.{Lexed, ended, open_quote, found, lex, drop_spaces}
use wio_lite_ai.Shell.Token.Tokenize.{Strings}
use wio_lite_ai.Shell.Parse.Tree.{Cmd, null, set, Cmds, subcmds, handler, mandatory, optional}
use wio_lite_ai.Shell.Parse.Paths.{CmdPath, Deepest, find_root, find_sub, CmdOk}
use wio_lite_ai.Shell.Parse.Walk.{Reads, At}
use wio_lite_ai.Shell.Parse.{max_argc, max_depth, zero_out, not_found_out, Result, Place, is_raw}

-- The command resolved: `argv` holds the words of its path and then its arguments, the walk went
-- as deep as the words lead, and the handler is given the last word of the path and the arguments.
pub record Resolution (roots : Cmds) (r : Result) (c : Cmd) (argc : ℕ) : Type 0 where
  pub path : List (List ℕ)
  pub args : List (List ℕ)
  pub bound : ℕ
  pub strings : Strings r.mem bound r.argv (path ++ args)
  pub reached : CmdPath roots path c
  pub deepest : Deepest c args
  pub argc_is : argc ≡ length args + 1
  pub out_is :
      r.out
      ≡ record { command = some c; base = some (length path - 1); argc = argc; level = length path }

-- The words behind the path: all that the line holds, or, for a raw command, one word less than it
-- requires, and then the rest of the line from its first character on that is not a blank.
pub data Taken (text : List ℕ) (c : Cmd) (path args : List (List ℕ)) : Type 0 where
  whole :
      Reads text (path ++ args) []
      → (is_raw c ≡ true → length args ≤ mandatory c - 1)
      → Taken text c path args
  tail :
      (before : List (List ℕ)) (rest : List ℕ) (x : ℕ) (xs : List ℕ)
      → is_raw c ≡ true
      → Reads text (path ++ before) rest
      → length before ≡ mandatory c - 1
      → drop_spaces rest ≡ x ∷ xs
      → args ≡ before ++ (x ∷ xs) ∷ []
      → Taken text c path args

-- Why the walk is at its end: no subcommands, no word left, or a word that names none of them.
abbrev pub Stops : Cmd → List (List ℕ) → List ℕ → Type 0
Stops c args rest =
    ((subcmds c ≡ null) × (args ≡ []))
    ⊎ ((args ≡ []) × (rest ≡ []))
    ⊎ ((cs : Cmds) × (w : List ℕ) × (subcmds c ≡ set cs) × (args ≡ w ∷ []) × (find_sub cs w ≡ none))

abbrev pub TooMany : Cmd → ℕ → Type 0
TooMany c n = (is_raw c ≡ false) × (mandatory c + optional c < n)

-- Where the words of the line cannot be read on.
abbrev pub Broken : List ℕ → Lexed → Type 0
Broken text x =
    (words : List (List ℕ)) × (rest : List ℕ) × Reads text words rest
    × (lex rest ≡ x)
    × (length words ≤ max_argc)

abbrev pub Meaning : Cmds → List ℕ → Result → Status → Type 0
Meaning roots text r ok =
    (c : Cmd) × (n : ℕ) × ((g : Resolution roots r c n) × Taken text c g.path g.args)
    × ((h : ℕ) × (handler c ≡ some h))
    × (mandatory c ≤ n)
    × ((is_raw c ≡ true) ⊎ (n ≤ mandatory c + optional c))
Meaning roots text r wrong_args =
    (c : Cmd) × (n : ℕ) × ((g : Resolution roots r c n) × Taken text c g.path g.args)
    × ((h : ℕ) × (handler c ≡ some h))
    × ((n < mandatory c) ⊎ TooMany c n)
Meaning roots text r no_handler =
    (c : Cmd) × (n : ℕ) × ((g : Resolution roots r c n) × (rest : List ℕ) × Reads text
        (g.path ++ g.args) rest
      × Stops c g.args rest)
    × (handler c ≡ none)
Meaning roots text r not_found =
    (w rest : List ℕ) × (bound : ℕ) × (lex text ≡ found w rest)
    × Strings r.mem bound r.argv (w ∷ [])
    × (find_root roots w ≡ none)
    × (r.out ≡ not_found_out)
Meaning roots text r too_many_tokens =
    (r.out ≡ zero_out)
    × ((words : List (List ℕ)) × (rest t rest' : List ℕ) × Reads text words rest
        × (lex rest ≡ found t rest')
        × (length words ≡ max_argc))
Meaning roots text r unterminated_quote = (r.out ≡ zero_out) × Broken text open_quote
Meaning roots text r nesting_too_deep =
    (r.out ≡ zero_out)
    × ((path : List (List ℕ)) × (rest : List ℕ) × (c : Cmd) × Reads text path rest
        × CmdPath roots path c
        × (max_depth + 1 < length path))
Meaning roots text r empty = (r.out ≡ zero_out) × (r.argv ≡ []) × (lex text ≡ ended)

pub record IsSound (roots : Cmds) (cap : ℕ) (text : List ℕ) (r : Result) : Type 0 where
  pub in_argv : length r.argv < cap
  pub meaning : Meaning roots text r r.status

-- Where the walk stands: the words read so far, and the line that is left, of at most `len` bytes.
pub record Stands (roots : Cmds) (text : List ℕ) (len : ℕ) (p : Place) (path args : List (List ℕ))
    (rest : List ℕ) : Type 0 where
  pub cursor : At text p.st (path ++ args) rest
  pub reached : CmdPath roots path p.command
  pub level_is : p.level ≡ length path
  pub few : length p.st.argv ≤ max_argc
  pub short : length rest ≤ len
  pub named : CmdOk p.command

abbrev pub Reached : Cmds → List ℕ → ℕ → Place → Type 0
Reached roots text len p =
    (path : List (List ℕ)) × (rest : List ℕ) × Stands roots text len p path [] rest

abbrev pub Walked : Cmds → List ℕ → ℕ → Place → Type 0
Walked roots text len p =
    (path args : List (List ℕ)) × (rest : List ℕ) × Stands roots text len p path args rest
    × Stops p.command args rest
