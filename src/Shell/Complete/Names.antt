-- ===== src/Shell/Complete/Names.antt =====
-- The candidates of a tree whose names have no NUL have none.
use wio_lite_ai.Base.{
  ℕ, zero, suc, ◌+◌, not, ◌&&◌, Option, none, some, List, [], ◌∷◌, length, take, drop, Mem, NonNul,
  if◌then◌else◌, if_either, ◌==◌,
}
use wio_lite_ai.Shell.Parse.Tree.{Cmd, cmd, CmdSet, null, set, Cmds, nil, entry}
use wio_lite_ai.Shell.Parse.Paths.{CmdOk, CmdSetOk, CmdsOk}
use wio_lite_ai.Shell.Complete.{
  Found, resolve_set, resolve_loop, next_ro_token, level_match, level_names, below, ro_match_root,
  ro_match_sub, root_names, sub_names, scan_candidates, scan_loop, same_bytes, starts_with, agree,
}

pub NonNul-take : (n : ℕ) (l : List ℕ) → NonNul l → NonNul (take n l)
NonNul-take zero l z = tt
NonNul-take (suc n) [] z = tt
NonNul-take (suc n) (x ∷ xs) z = (z.0, NonNul-take n xs z.1)

pub NonNul-drop : (n : ℕ) (l : List ℕ) → NonNul l → NonNul (drop n l)
NonNul-drop zero l z = z
NonNul-drop (suc n) [] z = tt
NonNul-drop (suc n) (x ∷ xs) z = NonNul-drop n xs z.1

-- Names with no NUL in them.
abbrev pub AllOk : List (List ℕ) → Type 0
AllOk [] = Unit {0}
AllOk (s ∷ names) = NonNul s × AllOk names

abbrev FoundOk : Option Cmd → Type 0
FoundOk none = Unit {0}
FoundOk (some c) = CmdOk c

abbrev LevelOk : Option Cmds → Type 0
LevelOk none = Unit {0}
LevelOk (some cs) = CmdsOk cs

abbrev pub NamesOk : Option (List (List ℕ)) → Type 0
NamesOk none = Unit {0}
NamesOk (some names) = AllOk names

root_names-AllOk : (cs : Cmds) → CmdsOk cs → AllOk (root_names cs)
unfolding root_names
root_names-AllOk nil z = tt
root_names-AllOk (entry (cmd none s h l u) cs) z = root_names-AllOk cs z.1
root_names-AllOk (entry (cmd (some n) s h l u) cs) z = (z.0.0, root_names-AllOk cs z.1)

sub_names-AllOk : (cs : Cmds) → CmdsOk cs → AllOk (sub_names cs)
unfolding sub_names
sub_names-AllOk nil z = tt
sub_names-AllOk (entry (cmd none s h l u) cs) z = tt
sub_names-AllOk (entry (cmd (some n) s h l u) cs) z = (z.0.0, sub_names-AllOk cs z.1)

ro_match_root-FoundOk :
    (m : Mem) (cs : Cmds) (p n : ℕ) → CmdsOk cs → FoundOk (ro_match_root m cs p n)
unfolding ro_match_root
ro_match_root-FoundOk m nil p n z = tt
ro_match_root-FoundOk m (entry (cmd none s h l u) cs) p n z = ro_match_root-FoundOk m cs p n z.1
ro_match_root-FoundOk m (entry (cmd (some w) s h l u) cs) p n z =
    if_either FoundOk (length w == n && same_bytes m w p) z.0 (ro_match_root-FoundOk m cs p n z.1)

ro_match_sub-FoundOk : (m : Mem) (cs : Cmds) (p n : ℕ) → CmdsOk cs → FoundOk (ro_match_sub m cs p n)
unfolding ro_match_sub
ro_match_sub-FoundOk m nil p n z = tt
ro_match_sub-FoundOk m (entry (cmd none s h l u) cs) p n z = tt
ro_match_sub-FoundOk m (entry (cmd (some w) s h l u) cs) p n z =
    if_either FoundOk (length w == n && same_bytes m w p) z.0 (ro_match_sub-FoundOk m cs p n z.1)

level_names-AllOk :
    (roots : Cmds) (level : Option Cmds)
    → CmdsOk roots
    → LevelOk level
    → AllOk (level_names roots level)
unfolding level_names
level_names-AllOk roots none z y = root_names-AllOk roots z
level_names-AllOk roots (some cs) z y = sub_names-AllOk cs y

of_found : (o : Option Cmd) → FoundOk o → CmdSetOk (below o)
of_found none k = tt
of_found (some (cmd w s h l u)) k = k.1

below-CmdSetOk :
    (m : Mem) (roots : Cmds) (level : Option Cmds) (p n : ℕ)
    → CmdsOk roots
    → LevelOk level
    → CmdSetOk (below (level_match m roots level p n))
unfolding level_match
below-CmdSetOk m roots none p n z y =
    of_found (ro_match_root m roots p n) (ro_match_root-FoundOk m roots p n z)
below-CmdSetOk m roots (some cs) p n z y =
    of_found (ro_match_sub m cs p n) (ro_match_sub-FoundOk m cs p n y)

module _ (f : ℕ) (m : Mem) (roots : Cmds) (level : Option Cmds) (limit : ℕ)
    (deeper : (cs : Cmds) (pos : ℕ)
      → CmdsOk cs
      → NamesOk (resolve_loop f m roots (some cs) pos limit)) where
  into-NamesOk :
      (ss : CmdSet) (pos : ℕ)
      → CmdSetOk ss
      → NamesOk (elim ss [ null ↦ none | set cs ↦ resolve_loop f m roots (some cs) pos limit ])
  into-NamesOk null pos k = tt
  into-NamesOk (set cs) pos k = deeper cs pos k

  at_token-NamesOk :
      CmdsOk roots
      → LevelOk level
      → (o : Option (ℕ × ℕ × ℕ))
      → NamesOk (elim o [
        | none ↦ some (level_names roots level)
        | some (begin, n, pos) ↦ elim (below (level_match m roots level begin n)) [
          | null ↦ none
          | set cs ↦ resolve_loop f m roots (some cs) pos limit
        ]
      ])
  at_token-NamesOk z y none = level_names-AllOk roots level z y
  at_token-NamesOk z y (some (begin, n, pos)) =
      into-NamesOk (below (level_match m roots level begin n)) pos
        (below-CmdSetOk m roots level begin n z y)

resolve_loop-NamesOk :
    (f : ℕ) (m : Mem) (roots : Cmds) (level : Option Cmds) (pos limit : ℕ)
    → CmdsOk roots
    → LevelOk level
    → NamesOk (resolve_loop f m roots level pos limit)
unfolding resolve_loop
resolve_loop-NamesOk zero m roots level pos limit z y = tt
resolve_loop-NamesOk (suc f) m roots level pos limit z y =
    at_token-NamesOk f m roots level limit
      (λ cs pos' k. resolve_loop-NamesOk f m roots (some cs) pos' limit z k) z y
      (next_ro_token m pos limit)

pub resolve_set-NamesOk :
    (m : Mem) (roots : Cmds) (ws : ℕ) → CmdsOk roots → NamesOk (resolve_set m roots ws)
unfolding resolve_set
resolve_set-NamesOk m roots ws z = resolve_loop-NamesOk (ws + 1) m roots none 0 ws z tt

scan_loop-NonNul :
    (m : Mem) (p plen : ℕ) (f : Found) (names : List (List ℕ))
    → NonNul f.tail
    → AllOk names
    → NonNul (scan_loop m p plen f names).tail
unfolding scan_loop
scan_loop-NonNul m p plen f [] z a = z
scan_loop-NonNul m p plen f (s ∷ names) z a =
    scan_loop-NonNul m p plen
      (if not (starts_with m s p plen)
        then f
        else if f.count == 0
        then record { count = 1; tail = drop plen s; lcp = length (drop plen s) }
        else record { count = f.count + 1; tail = f.tail; lcp = agree f.lcp (drop plen s) f.tail })
      names
      (if_either (λ (g : Found). NonNul g.tail) (not (starts_with m s p plen)) z
        (if_either (λ (g : Found). NonNul g.tail) (f.count == 0) (NonNul-drop plen s a.0) z))
      a.1

pub scan_candidates-NonNul :
    (m : Mem) (p plen : ℕ) (names : List (List ℕ))
    → AllOk names
    → NonNul (scan_candidates m p plen names).tail
unfolding scan_candidates
scan_candidates-NonNul m p plen names a =
    scan_loop-NonNul m p plen (record { count = 0; tail = []; lcp = 0 }) names tt a
