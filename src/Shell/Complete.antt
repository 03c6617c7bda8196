-- ===== src/Shell/Complete.antt =====
-- shell/core/cli_complete.c: Tab completion of command names. A `struct cmd_set` is the list of the
-- names that set_next goes through. `strlen(name) - plen` is written where the name has at least
-- `plen` characters: it is the length of what is left of the name. Fuel is as in Shell.Parse.
pub mod Insert
pub mod Scan
pub mod Names
pub mod Order
mod Tests
use wio_lite_ai.Base.{
  ℕ, zero, suc, ◌+◌, ◌-◌, ◌/◌, ◌%◌, ◌^◌, ◌&&◌, ◌||◌, not, Bool, true, false, Option, none, some,
  List, [], ◌∷◌, ◌++◌, ◌==◌, leb, ltb, if◌then◌else◌, length, take, drop, replicate, Mem, store,
  write,
}
use wio_lite_ai.Shell.Parse.Tree.{Cmd, CmdSet, null, set, Cmds, nil, entry, name, subcmds}
use wio_lite_ai.Shell.History.{History, copy, line_size}
use wio_lite_ai.Shell.Output.{Tx, Console, putc, puts, flush}
use wio_lite_ai.Shell.Edit.State.{Editor, edit_cols, sub32}
use wio_lite_ai.Shell.Edit.Render.{csi_n, refresh, with_lock}
use wio_lite_ai.Shell.Edit.Ops.{set_shell, say}

unfoldable pub bel : Tx → Editor → Editor
unfolding say
bel tx e = say tx (7 ∷ []) e

abbrev pub is_blank : ℕ → Bool
is_blank c = c == b' ' || c == b'\t'

-- `while (i > 0 && line[i - 1] != ' ' && line[i - 1] != '\t') i--`
unfoldable pub back_to_blank : Mem → ℕ → ℕ
back_to_blank m zero = zero
back_to_blank m (suc i) = let rest = back_to_blank m i in if is_blank (m i) then suc i else rest

unfoldable pub complete_word_start : History → ℕ
unfolding back_to_blank
complete_word_start h = back_to_blank h.line h.cur

-- `while (i < limit && is_blank(line[i]) == blank) i++`, with `n` bytes left up to the limit.
unfoldable pub run_of : Bool → ℕ → Mem → ℕ → ℕ
run_of blank zero m i = i
run_of true (suc n) m i = let rest = run_of true n m (i + 1) in if is_blank (m i) then rest else i
run_of false (suc n) m i = let rest = run_of false n m (i + 1) in if is_blank (m i) then i else rest

-- `next_ro_token`: the begin and the length of a token, and the position behind it.
unfoldable pub next_ro_token : Mem → ℕ → ℕ → Option (ℕ × ℕ × ℕ)
unfolding run_of
next_ro_token m pos limit =
    let i = run_of true (limit - pos) m pos in
    let j = run_of false (limit - i) m i in if leb limit i then none else some (i, j - i, j)

-- `memcmp(s, p, n) == 0` for a string `s` of `n` bytes.
unfoldable pub same_bytes : Mem → List ℕ → ℕ → Bool
same_bytes m [] p = true
same_bytes m (c ∷ cs) p = m p == c && same_bytes m cs (p + 1)

unfoldable pub ro_match_root : Mem → Cmds → ℕ → ℕ → Option Cmd
unfolding same_bytes
ro_match_root m nil p n = none
ro_match_root m (entry c cs) p n = elim (name c) [
  | none ↦ ro_match_root m cs p n
  | some s ↦ if length s == n && same_bytes m s p then some c else ro_match_root m cs p n
]

unfoldable pub ro_match_sub : Mem → Cmds → ℕ → ℕ → Option Cmd
unfolding same_bytes
ro_match_sub m nil p n = none
ro_match_sub m (entry c cs) p n = elim (name c) [
  | none ↦ none
  | some s ↦ if length s == n && same_bytes m s p then some c else ro_match_sub m cs p n
]

-- The names that `set_next` goes through: of the root commands, and of a set of subcommands.
unfoldable pub root_names : Cmds → List (List ℕ)
root_names nil = []
root_names (entry c cs) = elim (name c) [ none ↦ root_names cs | some s ↦ s ∷ root_names cs ]

unfoldable pub sub_names : Cmds → List (List ℕ)
sub_names nil = []
sub_names (entry c cs) = elim (name c) [ none ↦ [] | some s ↦ s ∷ sub_names cs ]

-- A level of `resolve_set`: the root, `none`, or the subcommands of `cmd`.
unfoldable pub level_match : Mem → Cmds → Option Cmds → ℕ → ℕ → Option Cmd
unfolding ro_match_root ro_match_sub
level_match m roots none p n = ro_match_root m roots p n
level_match m roots (some cs) p n = ro_match_sub m cs p n

unfoldable pub level_names : Cmds → Option Cmds → List (List ℕ)
unfolding root_names sub_names
level_names roots none = root_names roots
level_names roots (some cs) = sub_names cs

abbrev pub below : Option Cmd → CmdSet
below none = null
below (some c) = subcmds c

-- The loop of `resolve_set`. No fuel, and no completion, is `none`.
unfoldable pub resolve_loop : ℕ → Mem → Cmds → Option Cmds → ℕ → ℕ → Option (List (List ℕ))
unfolding next_ro_token level_match level_names
resolve_loop zero m roots level pos limit = none
resolve_loop (suc f) m roots level pos limit = elim (next_ro_token m pos limit) [
  | none ↦ some (level_names roots level)
  | some (begin, n, pos') ↦ elim (below (level_match m roots level begin n)) [
    | null ↦ none
    | set cs ↦ resolve_loop f m roots (some cs) pos' limit
  ]
]

unfoldable pub resolve_set : Mem → Cmds → ℕ → Option (List (List ℕ))
unfolding resolve_loop
resolve_set m roots ws = resolve_loop (ws + 1) m roots none 0 ws

-- `strncmp(s, p, n) == 0` for a string `s`.
unfoldable pub starts_with : Mem → List ℕ → ℕ → ℕ → Bool
starts_with m s p zero = true
starts_with m [] p (suc n) = m p == 0
starts_with m (c ∷ cs) p (suc n) = m p == c && starts_with m cs (p + 1) n

-- The loop over `k` of `scan_candidates`: how far two strings agree, up to `lcp`.
unfoldable pub agree : ℕ → List ℕ → List ℕ → ℕ
agree zero xs ys = 0
agree (suc n) [] ys = 0
agree (suc n) xs [] = 0
agree (suc n) (x ∷ xs) (y ∷ ys) = let rest = agree n xs ys in if x == y then suc rest else 0

-- What the scan has: the count, the first candidate behind the prefix, and `lcp`.
pub record Found : Type 0 where
  pub count : ℕ
  pub tail : List ℕ
  pub lcp : ℕ

unfoldable pub scan_loop : Mem → ℕ → ℕ → Found → List (List ℕ) → Found
unfolding starts_with agree
scan_loop m p plen found [] = found
scan_loop m p plen found (s ∷ names) =
    let rest = drop plen s in
    let next =
      if not (starts_with m s p plen)
      then found
      else if found.count == 0
      then record { count = 1; tail = rest; lcp = length rest }
      else record {
        count = found.count + 1;
        tail = found.tail;
        lcp = agree found.lcp rest found.tail;
      } in
    scan_loop m p plen next names

unfoldable pub scan_candidates : Mem → ℕ → ℕ → List (List ℕ) → Found
unfolding scan_loop
scan_candidates m p plen names = scan_loop m p plen (record { count = 0; tail = []; lcp = 0 }) names

-- The bytes in the line, from `insert_at_cursor`.
unfoldable pub open_gap : List ℕ → History → History
open_gap bs h =
    let n = length bs in
    let m = write (copy h.line (h.cur + n) h.line h.cur (h.len - h.cur)) h.cur bs in
    let len = (h.len + n) % 2 ^ 16 in
    record h { line = store m len 0; len = len; cur = (h.cur + n) % 2 ^ 16 }

unfoldable pub insert_at_cursor : Tx → List ℕ → Editor → Bool × Editor
unfolding open_gap bel
insert_at_cursor tx bs e =
    let n = length bs in
    if n == 0
    then (true, e)
    else if ltb (line_size - 1) (e.shell.len + n)
    then (false, bel tx e)
    else (true, set_shell e (open_gap bs e.shell))

-- The names that begin with the prefix.
unfoldable pub matching : Mem → ℕ → ℕ → List (List ℕ) → List (List ℕ)
unfolding starts_with
matching m p plen [] = []
matching m p plen (s ∷ names) =
    let rest = matching m p plen names in if starts_with m s p plen then s ∷ rest else rest

unfoldable pub longest : ℕ → List (List ℕ) → ℕ
longest n [] = n
longest n (s ∷ names) = longest (if ltb n (length s) then length s else n) names

-- Pass 2 of `show_list`: the names in columns, `n` of them printed.
unfoldable pub put_names : Tx → ℕ → ℕ → ℕ → List (List ℕ) → Console → Console
put_names tx colw per_row n [] c = if n % per_row == 0 then c else puts tx c (b'\r' ∷ b'\n' ∷ [])
put_names tx colw per_row n (s ∷ names) c =
    let c' = puts tx c s in
    let end =
      if (n + 1) % per_row == 0 then b'\r' ∷ b'\n' ∷ [] else replicate (colw - length s) b' ' in
    put_names tx colw per_row (n + 1) names (puts tx c' end)

unfoldable pub put_list : Tx → ℕ → ℕ → List (List ℕ) → Editor → Editor
unfolding put_names csi_n
put_list tx colw per_row names e =
    let down = sub32 (e.old_rows - 1) e.draw_row in
    let c =
      if not (e.old_rows == 0) && not (down == 0)
      then csi_n tx e.console down b'B'
      else e.console in
    record e {
      console = flush tx (put_names tx colw per_row 0 names (puts tx c (b'\r' ∷ b'\n' ∷ [])));
    }

-- `show_list`; where the lock is refused, nothing more is done.
unfoldable pub show_list : Tx → List (List ℕ) → Editor → Editor
unfolding put_list longest with_lock
show_list tx names e =
    let cols = edit_cols e in
    let wide = longest 0 names in
    let colw = if ltb cols (wide + 2) then cols else wide + 2 in
    let per_row = if cols / colw == 0 then 1 else cols / colw in
    let e' = with_lock tx (put_list tx colw per_row names) e in
    if wide == 0
    then e
    else if tx.lock_ok e.console.asked
    then refresh tx (record e' { old_rows = 0; draw_row = 0 })
    else e'

abbrev pub armed : Bool → Editor → Editor
armed b e = record e { tab_list_armed = b }

-- One candidate.
unfoldable pub complete_one : Tx → List ℕ → Editor → Editor
unfolding insert_at_cursor
complete_one tx tail e =
    let (ok, e') = insert_at_cursor tx tail e in
    let e'' = (insert_at_cursor tx (b' ' ∷ []) e').1 in
    refresh tx (if ok && e'.shell.cur == e'.shell.len then e'' else e')

-- More than one.
unfoldable pub complete_many : Tx → List (List ℕ) → Found → Editor → Editor
unfolding insert_at_cursor show_list bel
complete_many tx names found e =
    let (ok, e') = insert_at_cursor tx (take found.lcp found.tail) e in
    let e'' = if found.lcp == 0 then e else e' in
    if not (found.lcp == 0) && ok
    then armed true (refresh tx e')
    else if e.tab_list_armed
    then show_list tx names e''
    else (let d = armed true e'' in if found.lcp == 0 then bel tx d else d)

-- `cli_tab_complete`
unfoldable pub tab_complete : Tx → Cmds → Editor → Editor
unfolding complete_word_start resolve_set scan_candidates matching complete_one complete_many bel
tab_complete tx roots e =
    let ws = complete_word_start e.shell in
    let plen = e.shell.cur - ws in
    elim (resolve_set e.shell.line roots ws) [
      | none ↦ bel tx (armed false e)
      | some names ↦
          let found = scan_candidates e.shell.line ws plen names in
          if found.count == 0
          then bel tx (armed false e)
          else if found.count == 1
          then complete_one tx found.tail (armed false e)
          else complete_many tx (matching e.shell.line ws plen names) found e
    ]
