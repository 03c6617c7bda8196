-- ===== src/Shell/Parse/Tests.antt =====
-- cli_parse on a small tree of commands.
use wio_lite_ai.Base.{ℕ, ◌≡◌, refl, arith, Option, none, some, List, [], ◌∷◌, CStr, codes, load}
use wio_lite_ai.Shell.Token.{Status, no_handler, next_token, skip_spaces, token_loop, round}
use wio_lite_ai.Shell.Parse.Tree.{cmd, null, set, Cmds, nil, entry, match_root, match_sub, str_eq}
use wio_lite_ai.Shell.Parse.Paths.{CmdsOk}
use wio_lite_ai.Shell.Parse.Sound.{IsSound}
use wio_lite_ai.Shell.Parse.Correct.{parse-IsSound}
use wio_lite_ai.Shell.Parse.{Result, is_raw, parse, descend, read_all, read_needed, raw_tail}

-- sd { info; write <file> [raw text] }, echo
abbrev tree : Cmds
tree =
    entry
      (cmd (some (codes "sd"))
        (set (
          entry (cmd (some (codes "info")) null (some 1) 1 0)
            (entry (cmd (some (codes "write")) null (some 2) 2 255) nil)))
        none 1 0)
      (entry (cmd (some (codes "echo")) null (some 3) 1 2) nil)

abbrev status : Option Result → Option Status
status (some r) = some r.status
status none = none

abbrev argv : Option Result → List ℕ
argv (some r) = r.argv
argv none = []

raw_write : argv (parse 60 22 tree (load "sd write  f \"x") 0) ≡ 0 ∷ 3 ∷ 9 ∷ 12 ∷ []
unfolding parse next_token skip_spaces token_loop round str_eq descend read_all read_needed raw_tail
    match_root match_sub is_raw
raw_write = refl

no_handler_of_parent : status (parse 60 22 tree (load "sd") 0) ≡ some no_handler
unfolding parse next_token skip_spaces token_loop round str_eq descend read_all read_needed raw_tail
    match_root match_sub is_raw
no_handler_of_parent = refl

line-CStr : CStr (load "sd write  f \"x") 0 (codes "sd write  f \"x")
line-CStr = omega arith

tree-CmdsOk : CmdsOk tree
tree-CmdsOk = omega arith

parse-IsSound_example :
    (r : Result) × (parse 60 22 tree (load "sd write  f \"x") 0 ≡ some r)
    × IsSound tree 22 (codes "sd write  f \"x") r
parse-IsSound_example =
    parse-IsSound tree 22 60 (load "sd write  f \"x") 0 (codes "sd write  f \"x") tree-CmdsOk
      line-CStr (omega arith) (omega arith)
