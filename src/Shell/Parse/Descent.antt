-- ===== src/Shell/Parse/Descent.antt =====
-- The walk of cli_parse down the command tree.
use wio_lite_ai.Base.{
  ℕ, zero, suc, ◌+◌, ◌-◌, ◌≤◌, ◌<◌, ◌≡◌, refl, sym, subst, arith, inl, inr, Option-cases,
  Bool-cases, none, some, false, List, [], ◌∷◌, ◌++◌, append-nil, length, length-append, leb,
  leb→le, Mem, ◌∙◌,
}
use wio_lite_ai.Shell.Token.{unterminated_quote, nesting_too_deep, too_many_tokens}
use wio_lite_ai.Shell.Token.Tokenize.{length-Strings, lex-shorter}
use wio_lite_ai.Shell.Parse.Tree.{Cmd, cmd, null, set, Cmds, subcmds}
use wio_lite_ai.Shell.Parse.Paths.{sub, find_sub, CmdsOk, match_sub-find_sub, find_sub-CmdOk}
use wio_lite_ai.Shell.Parse.Walk.{At, Fetched, finished, broken, another, fetch, Ends}
use wio_lite_ai.Shell.Parse.Sound.{IsSound, Stands, Walked}
use wio_lite_ai.Shell.Parse.{max_argc, max_depth, State, Place, Flow, push, go, early, descend}

pub few-push :
    (st : State) (tok rd wr : ℕ) (m : Mem)
    → leb max_argc (length st.argv) ≡ false
    → length (push st tok m rd wr).argv ≤ max_argc
few-push st tok rd wr m h = ground (arith, length-append st.argv (tok ∷ []))

module _ (roots : Cmds) (cap : ℕ) (text : List ℕ) (len : ℕ) where
  abbrev Good : Flow Place → Type 0
  Good = Ends (Walked roots text len) (IsSound roots cap text)

  words_stored :
      {p : Place} {path args : List (List ℕ)} {rest : List ℕ}
      → Stands roots text len p path args rest
      → length p.st.argv ≡ length (path ++ args)
  words_stored {p} {path} {args} s =
      length-Strings p.st.mem p.st.wr p.st.argv (path ++ args) s.cursor.strings

  -- One round of the loop, at a command with subcommands.
  descend_round :
      (f : ℕ) (st : State) (c : Cmd) (cs : Cmds) (level : ℕ) (path : List (List ℕ)) (rest : List ℕ)
      → max_argc < cap
      → subcmds c ≡ set cs
      → CmdsOk cs
      → Stands roots text len (record { st = st; command = c; level = level }) path [] rest
      → ((st' : State) (d : Cmd) (path' : List (List ℕ)) (r : List ℕ)
          → length r < length rest
          → Stands roots text len (record { st = st'; command = d; level = level + 1 }) path' [] r
          → Good (descend f st' d (level + 1)))
      → Fetched text f st (path ++ []) rest
      → Good (descend (suc f) st c level)
  unfolding descend
  descend_round f st c cs level path rest h is_set named s ih (finished rd e a q) =
      subst Good (sym steps) (
        path,
        [],
        [],
        record {
          cursor = a;
          reached = s.reached;
          level_is = s.level_is;
          few = s.few;
          short = omega arith;
          named = s.named;
        },
        inr (inl (refl, refl)),
      )
    where
      steps :
          descend (suc f) st c level
          ≡ go (record { st = record st { rd = rd }; command = c; level = level })
      steps = ground (arith, is_set, e)
  descend_round f st c cs level path rest h is_set named s ih (broken m e q) =
      subst Good (sym steps) (record {
        in_argv = omega (arith, s.few);
        meaning =
            (refl, (path ++ [], rest, s.cursor.reads, q, omega (arith, s.few, words_stored s)));
      })
    where
      steps : descend (suc f) st c level ≡ early unterminated_quote (record st { mem = m })
      steps = ground (arith, is_set, e)
  descend_round f st c cs level path rest h is_set named s ih (another t r m rd wr e a is q) =
      elim (Bool-cases (leb max_argc (length st.argv))) [
        | inl full ↦
            let steps : descend (suc f) st c level
                ≡ early too_many_tokens (record st { mem = m; rd = rd; wr = wr }) =
              ground (arith, is_set, e, full) in
            subst Good (sym steps) (record {
              in_argv = omega (arith, s.few);
              meaning = (
                refl,
                (
                  path ++ [],
                  rest,
                  t,
                  r,
                  s.cursor.reads,
                  q,
                  omega (arith, s.few, words_stored s, leb→le max_argc (length st.argv) full),
                ),
              );
            })
        | inr more ↦ elim (Option-cases (find_sub cs t)) [
          | inl miss ↦ argument more miss
          | inr (d, hit) ↦ deeper more d hit
        ]
      ]
    where
      st' : State
      st' = push st st.wr m rd wr

      shorter : length r < length rest
      shorter = lex-shorter rest t r q

      joined : At text st' (path ++ t ∷ []) r
      joined = subst (λ ws. At text st' (ws ++ t ∷ []) r) (append-nil path) a

      argument :
          leb max_argc (length st.argv) ≡ false
          → find_sub cs t ≡ none
          → Good (descend (suc f) st c level)
      argument more miss =
          let missed = match_sub-find_sub cs t m st.wr named is ∙ miss in
          let steps : descend (suc f) st c level
              ≡ go (record { st = st'; command = c; level = level }) =
            ground (arith, is_set, e, more, missed) in
          subst Good (sym steps) (
            path,
            t ∷ [],
            r,
            record {
              reached = s.reached;
              level_is = s.level_is;
              named = s.named;
              cursor = joined;
              few = few-push st st.wr rd wr m more;
              short = omega (arith, s.short, shorter);
            },
            inr (inr (cs, t, is_set, refl, miss)),
          )

      deeper :
          leb max_argc (length st.argv) ≡ false
          → (d : Cmd) → find_sub cs t ≡ some d
          → Good (descend (suc f) st c level)
      deeper more d hit =
          let matched = match_sub-find_sub cs t m st.wr named is ∙ hit in
          let few = few-push st st.wr rd wr m more in
          elim (Bool-cases (leb max_depth (level - 1))) [
            | inl deep ↦
                let steps : descend (suc f) st c level ≡ early nesting_too_deep st' =
                  ground (arith, is_set, e, more, matched, deep) in
                subst Good (sym steps) (record {
                  in_argv = omega (arith, few);
                  meaning = (
                    refl,
                    (
                      path ++ t ∷ [],
                      r,
                      d,
                      joined.reads,
                      sub t cs s.reached is_set hit refl,
                      omega (
                        arith,
                        leb→le max_depth (level - 1) deep,
                        s.level_is,
                        length-append path (t ∷ []),
                      ),
                    ),
                  );
                })
            | inr room ↦
                let steps : descend (suc f) st c level ≡ descend f st' d (level + 1) =
                  ground (arith, is_set, e, more, matched, room) in
                subst Good (sym steps) (
                  ih st' d (path ++ t ∷ []) r shorter (record {
                    cursor =
                        subst (λ ws. At text st' ws r) (sym (append-nil (path ++ t ∷ []))) joined;
                    reached = sub t cs s.reached is_set hit refl;
                    level_is = omega (arith, s.level_is, length-append path (t ∷ []));
                    few = few;
                    short = omega (arith, s.short, shorter);
                    named = find_sub-CmdOk cs t named hit;
                  }))
          ]

  -- With fuel for the line that is left the walk ends, at a command that the words name.
  pub descend_lem :
      (f : ℕ) (st : State) (c : Cmd) (level : ℕ) (path : List (List ℕ)) (rest : List ℕ)
      → max_argc < cap
      → length rest + 1 < f
      → Stands roots text len (record { st = st; command = c; level = level }) path [] rest
      → Good (descend f st c level)
  descend_lem zero st c level path rest h k s = absurd (omega arith)
  descend_lem (suc f) st (cmd n null x lo hi) level path rest h k s =
      unfold descend in (path, [], rest, s, inl (refl, refl))
  descend_lem (suc f) st (cmd n (set cs) x lo hi) level path rest h k s =
      descend_round f st (cmd n (set cs) x lo hi) cs level path rest h refl s.named.1 s
        (λ st' d path' r shorter s'. descend_lem f st' d (level + 1) path' r h (omega arith) s')
        (fetch text f st (path ++ []) rest s.cursor (omega arith))
