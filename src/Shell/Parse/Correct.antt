-- ===== src/Shell/Parse/Correct.antt =====
-- cli_parse as a whole: the walk, the arguments and the checks of their count put together.
use wio_lite_ai.Base.{
  ℕ, ◌+◌, ◌-◌, ◌≤◌, ◌<◌, ◌∙◌, refl, sym, subst, ap, ap₂, arith, inl, inr, Option-cases, Bool-cases,
  some, List, [], true, false, ◌≡◌, ◌∷◌, ◌++◌, append-nil, append_assoc, length, length-append, Mem,
  CStr, ltb, not, ◌&&◌,
}
use wio_lite_ai.Shell.Token.{Status, ok, no_handler, wrong_args}
use wio_lite_ai.Shell.Token.Tokenize.{Strings, length-Strings}
use wio_lite_ai.Shell.Parse.Tree.{Cmd, Cmds, set, subcmds, handler, mandatory, optional}
use wio_lite_ai.Shell.Parse.Paths.{CmdPath, root, sub, Deepest, CmdsOk}
use wio_lite_ai.Shell.Parse.Walk.{Reads, Ends, Ends-bind}
use wio_lite_ai.Shell.Parse.Sound.{
  Resolution, IsSound, Taken, whole, tail, Stands, Reached, Walked, Stops,
}
use wio_lite_ai.Shell.Parse.Root.{root_command_lem}
use wio_lite_ai.Shell.Parse.Descent.{descend_lem}
use wio_lite_ai.Shell.Parse.Filled.{Filled, to_end, with_tail}
use wio_lite_ai.Shell.Parse.Arguments.{Stored, arguments_lem}
use wio_lite_ai.Shell.Parse.{
  max_argc, State, Place, Result, Flow, ◌>>=◌, go, exit, resolved, check_count, with_handler,
  arguments, root_command, descend, is_raw, stuck, returned, parse_flow, parse,
}

CmdPath-ne_nil : {roots : Cmds} {ws : List (List ℕ)} {c : Cmd} → CmdPath roots ws c → 1 ≤ length ws
CmdPath-ne_nil (root w e) = omega arith
CmdPath-ne_nil (sub {ws = ws} w cs p e h eq) =
    omega (arith, ap length eq, length-append ws (w ∷ []))

Stops-Deepest :
    (c : Cmd) (args more : List (List ℕ)) (rest : List ℕ)
    → Stops c args rest
    → (rest ≡ [] → more ≡ [])
    → Deepest c (args ++ more)
Stops-Deepest c args more rest (inl e) h = inl e.0
Stops-Deepest c args more rest (inr (inl (e, z))) h = inr (inl (ap₂ ◌++◌ e (h z)))
Stops-Deepest c args more rest (inr (inr (cs, w, is_set, e, miss))) h =
    inr (inr (cs, w, more, is_set, ap (λ xs. xs ++ more) e, miss))

set-rejected : (c : Cmd) (cs : Cmds) → subcmds c ≡ set cs → is_raw c ≡ true → false ≡ true
unfolding is_raw
set-rejected c cs e r = ground (arith, e, r)

-- A raw command has no subcommands, so the walk read no word behind its path.
raw-bare :
    (c : Cmd) (args : List (List ℕ)) (rest : List ℕ)
    → Stops c args rest
    → is_raw c ≡ true
    → args ≡ []
unfolding is_raw
raw-bare c args rest (inl e) r = e.1
raw-bare c args rest (inr (inl e)) r = e.0
raw-bare c args rest (inr (inr (cs, w, is_set, e, miss))) r = cc (set-rejected c cs is_set r)

Filled-Taken :
    (text : List ℕ) (c : Cmd) (path args more : List (List ℕ))
    → (is_raw c ≡ true → args ≡ [])
    → Filled text (is_raw c) (mandatory c - 1) (path ++ args) more
    → Taken text c path (args ++ more)
Filled-Taken text c path args more bare (to_end r h) =
    whole (subst (λ ws. Reads text ws []) (append_assoc path args more) r)
      (λ z. omega (arith, h z, ap length (bare z), length-append args more))
Filled-Taken text c path args more bare (with_tail before rest x xs z r n d e) =
    tail (args ++ before) rest x xs z
      (subst (λ ws. Reads text ws rest) (append_assoc path args before) r)
      (omega (arith, n, ap length (bare z), length-append args before)) d
      (ap (λ ws. args ++ ws) e ∙ sym (append_assoc args before ((x ∷ xs) ∷ [])))

resolution :
    (roots : Cmds) (text : List ℕ) (len : ℕ) (e : Status) (p : Place) (st : State)
    (path args : List (List ℕ)) (rest : List ℕ) (more : List (List ℕ))
    → Stands roots text len p path args rest
    → Stops p.command args rest
    → (bound : ℕ) → Strings st.mem bound st.argv ((path ++ args) ++ more)
    → (rest ≡ [] → more ≡ [])
    → Resolution roots (resolved e p st) p.command (length st.argv - (p.level - 1))
resolution roots text len e p st path args rest more s d bound strs last = record {
  path = path;
  args = args ++ more;
  bound = bound;
  strings = joined;
  reached = s.reached;
  deepest = Stops-Deepest p.command args more rest d last;
  argc_is = omega (
    arith,
    length-Strings st.mem bound st.argv (path ++ (args ++ more)) joined,
    length-append path (args ++ more),
    s.level_is,
    CmdPath-ne_nil s.reached,
  );
  out_is = ground (arith, s.level_is);
}
  where
    joined : Strings st.mem bound st.argv (path ++ (args ++ more))
    joined = subst (Strings st.mem bound st.argv) (append_assoc path args more) strs

taken :
    (roots : Cmds) (text : List ℕ) (len cap : ℕ) (e : Status) (p : Place) (st : State)
    (path args : List (List ℕ)) (rest : List ℕ)
    → Stands roots text len p path args rest
    → Stops p.command args rest
    → Stored roots cap text (is_raw p.command) (mandatory p.command - 1) (path ++ args) rest st
    → (g : Resolution roots (resolved e p st) p.command (length st.argv - (p.level - 1))) × Taken
        text p.command g.path g.args
unfolding resolution
taken roots text len cap e p st path args rest s d (more, bound, strs, last, few, filled) = (
  resolution roots text len e p st path args rest more s d bound strs last,
  Filled-Taken text p.command path args more (raw-bare p.command args rest d) filled,
)

module _ (roots : Cmds) (cap : ℕ) (text : List ℕ) where
  abbrev IsGood : Flow Result → Type 0
  IsGood = Ends (IsSound roots cap text) (IsSound roots cap text)

  check_count_lem :
      (len : ℕ) (p : Place) (st : State) (path args : List (List ℕ)) (rest : List ℕ) (h : ℕ)
      → Stands roots text len p path args rest
      → Stops p.command args rest
      → handler p.command ≡ some h
      → Stored roots cap text (is_raw p.command) (mandatory p.command - 1) (path ++ args) rest st
      → IsSound roots cap text (check_count p st)
  unfolding check_count
  check_count_lem len p st path args rest h s d handled k =
      let n = length st.argv - (p.level - 1) in
      let c = p.command in
      let r = λ (e : Status). taken roots text len cap e p st path args rest s d k in
      elim (Bool-cases (ltb n (mandatory c))) [
        | inl few ↦
            rw (few, check_count)
              (record {
                in_argv = k.4;
                meaning = (c, n, r wrong_args, (h, handled), inl (ground (arith, few)));
              })
        | inr enough ↦ elim (Bool-cases (not (is_raw c) && ltb (mandatory c + optional c) n)) [
          | inl many ↦
              rw (enough, many, check_count)
                (record {
                  in_argv = k.4;
                  meaning = (c, n, r wrong_args, (h, handled), inr (ground (arith, many)));
                })
          | inr fits ↦
              rw (enough, fits, check_count)
                (record {
                  in_argv = k.4;
                  meaning =
                      (c, n, r ok, (h, handled), ground (arith, enough), ground (arith, fits));
                })
        ]
      ]

  with_handler_lem :
      (f len : ℕ) (p : Place)
      → max_argc + 1 < cap
      → len + 1 < f
      → Walked roots text len p
      → IsGood (with_handler f cap p)
  unfolding with_handler resolution
  with_handler_lem f len p h k (path, args, rest, s, d) = elim (Option-cases (handler p.command)) [
    | inl missing ↦
        let steps : with_handler f cap p ≡ exit (resolved no_handler p p.st) =
          ground (arith, missing) in
        let r =
          resolution roots text len no_handler p p.st path args rest [] s d p.st.wr
            (subst (Strings p.st.mem p.st.wr p.st.argv) (sym (append-nil (path ++ args)))
              s.cursor.strings)
            (λ z. refl) in
        subst IsGood (sym steps) (record {
          in_argv = omega (arith, s.few);
          meaning = (
            p.command,
            length p.st.argv - (p.level - 1),
            (
              r,
              rest,
              subst (λ ws. Reads text (path ++ ws) rest) (sym (append-nil args)) s.cursor.reads,
              subst (λ ws. Stops p.command ws rest) (sym (append-nil args)) d,
            ),
            missing,
          );
        })
    | inr (x, handled) ↦
        let steps : with_handler f cap p ≡ (arguments f cap p >>= λ st. go (check_count p st)) =
          ground (arith, handled) in
        subst IsGood (sym steps) (
          Ends-bind
            (Stored roots cap text (is_raw p.command) (mandatory p.command - 1) (path ++ args) rest)
            (IsSound roots cap text) (IsSound roots cap text) (arguments f cap p)
            (λ st. go (check_count p st))
            (arguments_lem roots cap text f p (path ++ args) rest h s.few (omega (arith, s.short))
              (omega (arith, s.level_is, CmdPath-ne_nil s.reached))
              (omega (arith, s.level_is, length-append path args)) s.cursor)
            (λ st. check_count_lem len p st path args rest x s d handled))
  ]

returned_lem :
    (Q : Result → Type 0) (m : Flow Result)
    → Ends Q Q m
    → (r : Result) × (returned m ≡ some r) × Q r
unfolding returned
returned_lem Q (go r) h = (r, refl, h)
returned_lem Q (exit r) h = (r, refl, h)
returned_lem Q stuck h = absurd h

-- For every line in memory and every tree with no NUL in its names, with fuel for the line and an
-- `argv` of at least CLI_ARGV_CAP entries, `cli_parse` returns, within `argv`, and what it returns is so
-- of the line's words, as the byte machine finds them one after another. For OK and WRONG_ARGS, `argv`
-- holds the words of the path of a command with a handler, which lead as deep as the tree goes, and
-- then its arguments: all the words behind the path, or, for a raw command, one fewer than it requires
-- and then the rest of the line from its first non-blank on. OK is for a count that the command
-- accepts, WRONG_ARGS for another. NO_HANDLER is for a command with none, NOT_FOUND for a first word
-- that names no command, EMPTY for a line of blanks, and NESTING_TOO_DEEP for words that name a command
-- more than nine deep. UNTERMINATED_QUOTE is for a quote open behind at most CLI_MAX_ARGC words, and
-- TOO_MANY_TOKENS for a word behind CLI_MAX_ARGC.
pub parse-IsSound :
    (roots : Cmds) (cap f : ℕ) (m : Mem) (line : ℕ) (l : List ℕ)
    → CmdsOk roots
    → CStr m line l
    → length l + 1 < f
    → max_argc + 2 ≤ cap
    → (r : Result) × (parse f cap roots m line ≡ some r) × IsSound roots cap l r
unfolding parse parse_flow
parse-IsSound roots cap f m line l z s k h =
    returned_lem (IsSound roots cap l) (parse_flow f cap roots m line) (
      Ends-bind (Reached roots l (length l)) (IsSound roots cap l) (IsSound roots cap l)
        (root_command f roots (record { mem = m; rd = line; wr = line; argv = [] })) _
        (root_command_lem f cap roots m line l z s (omega arith) (omega arith))
        (λ p g.
          Ends-bind (Walked roots l (length l)) (IsSound roots cap l) (IsSound roots cap l)
            (descend f p.st p.command p.level) (with_handler f cap)
            (descend_lem roots cap l (length l) f p.st p.command p.level g.0 g.1 (omega arith)
              (omega (arith, g.2.short)) g.2)
            (λ q w. with_handler_lem roots cap l f (length l) q (omega arith) k w)))
