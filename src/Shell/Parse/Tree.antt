-- ===== src/Shell/Parse/Tree.antt =====
-- `struct cli_cmd` of shell/include/cli.h as far as the parser reads it, and the searches
-- match_root and match_sub of shell/core/cli_parse.c.
use wio_lite_ai.Base.{
  ℕ, ◌+◌, ◌&&◌, Bool, Option, none, some, List, [], ◌∷◌, ◌==◌, if◌then◌else◌, Mem,
}

mutual
  -- The name (`none` for NULL), the subcommands, the handler, and the argument counts. A handler
  -- is a number that stands for the function.
  pub data Cmd : Type 0 where
    cmd :
        (name : Option (List ℕ)) (subcmds : CmdSet) (handler : Option ℕ) (mandatory optional : ℕ)
        → Cmd

  pub data CmdSet : Type 0 where
    null : CmdSet
    set : Cmds → CmdSet

  -- An array of commands.
  pub data Cmds : Type 0 where
    nil : Cmds
    entry : Cmd → Cmds → Cmds

abbrev pub name : Cmd → Option (List ℕ)
name (cmd n s h l u) = n

abbrev pub subcmds : Cmd → CmdSet
subcmds (cmd n s h l u) = s

abbrev pub handler : Cmd → Option ℕ
handler (cmd n s h l u) = h

abbrev pub mandatory : Cmd → ℕ
mandatory (cmd n s h l u) = l

abbrev pub optional : Cmd → ℕ
optional (cmd n s h l u) = u

-- `strcmp(s, p) == 0` for a constant string `s` and the string at `p`.
unfoldable pub str_eq : Mem → List ℕ → ℕ → Bool
str_eq m [] p = m p == 0
str_eq m (c ∷ cs) p = m p == c && str_eq m cs (p + 1)

-- The linker's array of root commands has no sentinel; an entry with no name is passed over.
unfoldable pub match_root : Mem → Cmds → ℕ → Option Cmd
match_root m nil tok = none
match_root m (entry c cs) tok = elim (name c) [
  | none ↦ match_root m cs tok
  | some n ↦ if str_eq m n tok then some c else match_root m cs tok
]

-- A set of subcommands ends at its first entry with no name.
unfoldable pub match_sub : Mem → Cmds → ℕ → Option Cmd
match_sub m nil tok = none
match_sub m (entry c cs) tok = elim (name c) [
  | none ↦ none
  | some n ↦ if str_eq m n tok then some c else match_sub m cs tok
]
