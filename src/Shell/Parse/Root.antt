-- ===== src/Shell/Parse/Root.antt =====
-- The first token of cli_parse: a root command or a fault.
use wio_lite_ai.Base.{
  ℕ, ◌<◌, ◌≡◌, refl, sym, subst, arith, inl, inr, Option-cases, List, [], ◌∷◌, length, Mem, CStr,
  ◌∙◌,
}
use wio_lite_ai.Shell.Token.{not_found}
use wio_lite_ai.Shell.Token.Tokenize.{lex-shorter}
use wio_lite_ai.Shell.Parse.Tree.{Cmds}
use wio_lite_ai.Shell.Parse.Paths.{root, find_root, CmdsOk, match_root-find_root, find_root-CmdOk}
use wio_lite_ai.Shell.Parse.Walk.{from_start, At, Fetched, finished, broken, another, fetch, Ends}
use wio_lite_ai.Shell.Parse.Sound.{IsSound, Reached}
use wio_lite_ai.Shell.Parse.{State, push, go, exit, not_found_out, root_command}

pub root_command_lem :
    (f cap : ℕ) (roots : Cmds) (m : Mem) (line : ℕ) (l : List ℕ)
    → CmdsOk roots
    → CStr m line l
    → length l < f
    → 1 < cap
    → Ends
        (Reached roots l (length l))
        (IsSound roots cap l)
        (root_command f roots (record { mem = m; rd = line; wr = line; argv = [] }))
unfolding root_command
root_command_lem f cap roots m line l z s k h = start (fetch l f st [] l at_start k)
  where
    st : State
    st = record { mem = m; rd = line; wr = line; argv = [] }

    at_start : At l st [] l
    at_start = record { reads = from_start; unread = s; room = inl (omega arith); strings = tt }

    start :
        Fetched l f st [] l
        → Ends (Reached roots l (length l)) (IsSound roots cap l) (root_command f roots st)
    start (finished rd e a q) =
        rw (e, root_command) (record { in_argv = omega arith; meaning = (refl, refl, q) })
    start (broken m' e q) =
        rw (e, root_command)
          (record { in_argv = omega arith; meaning = (refl, ([], l, from_start, q, omega arith)) })
    start (another t r m' rd wr e a is q) = elim (Option-cases (find_root roots t)) [
      | inl miss ↦
          let missed = match_root-find_root roots t m' line z is ∙ miss in
          let steps : root_command f roots st
              ≡ exit
                  (record { status = not_found; out = not_found_out; argv = line ∷ []; mem = m' }) =
            ground (arith, e, missed) in
          subst (Ends (Reached roots l (length l)) (IsSound roots cap l)) (sym steps)
            (record { in_argv = h; meaning = (t, r, wr, q, a.strings, miss, refl) })
      | inr (c, hit) ↦
          let matched = match_root-find_root roots t m' line z is ∙ hit in
          let st' = push st line m' rd wr in
          let steps : root_command f roots st ≡ go (record { st = st'; command = c; level = 1 }) =
            ground (arith, e, matched) in
          subst (Ends (Reached roots l (length l)) (IsSound roots cap l)) (sym steps) (
            t ∷ [],
            r,
            record {
              cursor = a;
              reached = root t hit;
              level_is = refl;
              few = omega arith;
              short = omega (arith, lex-shorter l t r q);
              named = find_root-CmdOk roots t z hit;
            },
          )
    ]
