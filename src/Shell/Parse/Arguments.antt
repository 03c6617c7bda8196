-- ===== src/Shell/Parse/Arguments.antt =====
-- The arguments behind the command path: the tokens left, or a raw tail.
use wio_lite_ai.Base.{
  ℕ, zero, suc, ◌+◌, ◌-◌, ◌≤◌, ◌<◌, ◌≡◌, refl, sym, subst, ap, ap₂, nil_of_length, arith, inl, inr,
  Bool, true, false, ◌⊎◌, Bool-cases, List, [], ◌∷◌, ◌++◌, append-nil, append_assoc, length,
  length-append, leb, leb→le, CStr, ltb, if◌then◌else◌,
}
use wio_lite_ai.Shell.Token.{unterminated_quote, too_many_tokens}
use wio_lite_ai.Shell.Token.Lexer.{drop_spaces, lex, lex_at}
use wio_lite_ai.Shell.Token.Extract.{skip_spaces_lem, drop_spaces-CStr, length-drop_spaces}
use wio_lite_ai.Shell.Token.Tokenize.{
  Strings, Strings-keep, Strings-append, length-Strings, lex-shorter,
}
use wio_lite_ai.Shell.Parse.Tree.{Cmds, mandatory}
use wio_lite_ai.Shell.Parse.Walk.{
  Reads, blanks, At, Fetched, finished, broken, another, fetch, Ends, Ends-bind,
}
use wio_lite_ai.Shell.Parse.Filled.{Filled, to_end, with_tail, Filled-more, Filled-join, Filled-any}
use wio_lite_ai.Shell.Parse.Sound.{IsSound}
use wio_lite_ai.Shell.Parse.Descent.{few-push}
use wio_lite_ai.Shell.Parse.{
  max_argc, State, Place, Flow, push, go, exit, stuck, early, read_needed, raw_tail, read_all,
  raw_arguments, arguments, is_raw,
}

module _ (roots : Cmds) (cap : ℕ) (text : List ℕ) where
  -- The words stored in the end: those of before, and more if the line was not at its end.
  abbrev pub Stored : Bool → ℕ → List (List ℕ) → List ℕ → State → Type 0
  Stored raw need words rest st =
      (more : List (List ℕ)) × (bound : ℕ) × Strings st.mem bound st.argv (words ++ more)
      × (rest ≡ [] → more ≡ [])
      × (length st.argv < cap)
      × Filled text raw need words more

  abbrev Between : ℕ → List (List ℕ) → List ℕ → State → Type 0
  Between need words rest st =
      (more : List (List ℕ)) × (rest' : List ℕ) × At text st (words ++ more) rest'
      × (rest ≡ [] → more ≡ [])
      × (length rest' ≤ length rest)
      × (length st.argv ≤ max_argc)
      × (length more ≤ need)
      × ((length more ≡ need) ⊎ (rest' ≡ []))

  Stored-more :
      (words : List (List ℕ)) (t : List ℕ) (r rest : List ℕ) (st : State)
      → length r < length rest
      → Stored false 0 (words ++ t ∷ []) r st
      → Stored false 0 words rest st
  Stored-more words t r rest st h (more, bound, s, e, k, g) = (
    t ∷ more,
    bound,
    subst (Strings st.mem bound st.argv) (append_assoc words (t ∷ []) more) s,
    λ z. absurd (omega (arith, ap length z)),
    k,
    Filled-more text t words more g,
  )

  Between-more :
      (need : ℕ) (words : List (List ℕ)) (t : List ℕ) (r rest : List ℕ) (st : State)
      → length r < length rest
      → Between need (words ++ t ∷ []) r st
      → Between (suc need) words rest st
  Between-more need words t r rest st h (more, rest', s, e, k, few, n, q) = (
    t ∷ more,
    rest',
    subst (λ ws. At text st ws rest') (append_assoc words (t ∷ []) more) s,
    λ z. absurd (omega (arith, ap length z)),
    omega arith,
    few,
    omega arith,
    elim q [ inl y ↦ inl (omega arith) | inr y ↦ inr y ],
  )

  Ends-map :
      (P P' : State → Type 0) (m : Flow State)
      → ((st : State) → P st → P' st)
      → Ends P (IsSound roots cap text) m
      → Ends P' (IsSound roots cap text) m
  Ends-map P P' (go st) g h = g st h
  Ends-map P P' (exit r) g h = h
  Ends-map P P' stuck g h = h

  abbrev pub Outcome : (State → Type 0) → Flow State → Type 0
  Outcome P = Ends P (IsSound roots cap text)

  read_all_lem :
      (f : ℕ) (st : State) (words : List (List ℕ)) (rest : List ℕ)
      → max_argc < cap
      → length st.argv ≤ max_argc
      → length rest + 1 < f
      → At text st words rest
      → Outcome (Stored false 0 words rest) (read_all f st)
  unfolding read_all
  read_all_lem zero st words rest h few k a = absurd (omega arith)
  read_all_lem (suc f) st words rest h few k a =
      round (λ st' t r. read_all_lem f st' (words ++ t ∷ []) r h)
        (fetch text f st words rest a (omega arith))
    where
      stored : length st.argv ≡ length words
      stored = length-Strings st.mem st.wr st.argv words a.strings

      round :
          ((st' : State) (t r : List ℕ)
            → length st'.argv ≤ max_argc
            → length r + 1 < f
            → At text st' (words ++ t ∷ []) r
            → Outcome (Stored false 0 (words ++ t ∷ []) r) (read_all f st'))
          → Fetched text f st words rest
          → Outcome (Stored false 0 words rest) (read_all (suc f) st)
      round ih (finished rd e b q) =
          let steps : read_all (suc f) st ≡ go (record st { rd = rd }) = ground (arith, e) in
          subst (Outcome (Stored false 0 words rest)) (sym steps) (
            [],
            st.wr,
            subst (Strings st.mem st.wr st.argv) (sym (append-nil words)) a.strings,
            λ z. refl,
            omega arith,
            to_end (subst (λ ws. Reads text ws []) (sym (append-nil words)) b.reads) (λ z. cc z),
          )
      round ih (broken m e q) =
          let steps : read_all (suc f) st ≡ early unterminated_quote (record st { mem = m }) =
            ground (arith, e) in
          subst (Outcome (Stored false 0 words rest)) (sym steps) (record {
            in_argv = omega arith;
            meaning = (refl, (words, rest, a.reads, q, omega (arith, stored)));
          })
      round ih (another t r m rd wr e b is q) = elim (Bool-cases (leb max_argc (length st.argv))) [
        | inl full ↦
            let steps : read_all (suc f) st
                ≡ early too_many_tokens (record st { mem = m; rd = rd; wr = wr }) =
              ground (arith, e, full) in
            subst (Outcome (Stored false 0 words rest)) (sym steps) (record {
              in_argv = omega arith;
              meaning = (
                refl,
                (
                  words,
                  rest,
                  t,
                  r,
                  a.reads,
                  q,
                  omega (arith, stored, leb→le max_argc (length st.argv) full),
                ),
              );
            })
        | inr room ↦
            let steps : read_all (suc f) st ≡ read_all f (push st st.wr m rd wr) =
              ground (arith, e, room) in
            subst (Outcome (Stored false 0 words rest)) (sym steps) (
              Ends-map (Stored false 0 (words ++ t ∷ []) r) (Stored false 0 words rest)
                (read_all f (push st st.wr m rd wr))
                (λ st'. Stored-more words t r rest st' (lex-shorter rest t r q))
                (ih (push st st.wr m rd wr) t r (few-push st st.wr rd wr m room)
                  (omega (arith, lex-shorter rest t r q)) b))
      ]

  read_needed_lem :
      (need f : ℕ) (st : State) (words : List (List ℕ)) (rest : List ℕ)
      → max_argc < cap
      → length st.argv ≤ max_argc
      → length rest < f
      → At text st words rest
      → Outcome (Between need words rest) (read_needed f need st)
  unfolding read_needed
  read_needed_lem zero f st words rest h few k a = (
    [],
    rest,
    subst (λ ws. At text st ws rest) (sym (append-nil words)) a,
    λ z. refl,
    omega arith,
    few,
    omega arith,
    inl refl,
  )
  read_needed_lem (suc need) f st words rest h few k a =
      round (λ st' t r. read_needed_lem need f st' (words ++ t ∷ []) r h)
        (fetch text f st words rest a k)
    where
      stored : length st.argv ≡ length words
      stored = length-Strings st.mem st.wr st.argv words a.strings

      round :
          ((st' : State) (t r : List ℕ)
            → length st'.argv ≤ max_argc
            → length r < f
            → At text st' (words ++ t ∷ []) r
            → Outcome (Between need (words ++ t ∷ []) r) (read_needed f need st'))
          → Fetched text f st words rest
          → Outcome (Between (suc need) words rest) (read_needed f (suc need) st)
      round ih (finished rd e b q) =
          let steps : read_needed f (suc need) st ≡ go (record st { rd = rd }) =
            ground (arith, e) in
          subst (Outcome (Between (suc need) words rest)) (sym steps) (
            [],
            [],
            subst (λ ws. At text (record st { rd = rd }) ws []) (sym (append-nil words)) b,
            λ z. refl,
            omega arith,
            few,
            omega arith,
            inr refl,
          )
      round ih (broken m e q) =
          let steps : read_needed f (suc need) st
              ≡ early unterminated_quote (record st { mem = m }) =
            ground (arith, e) in
          subst (Outcome (Between (suc need) words rest)) (sym steps) (record {
            in_argv = omega arith;
            meaning = (refl, (words, rest, a.reads, q, omega (arith, stored)));
          })
      round ih (another t r m rd wr e b is q) = elim (Bool-cases (leb max_argc (length st.argv))) [
        | inl full ↦
            let steps : read_needed f (suc need) st
                ≡ early too_many_tokens (record st { mem = m; rd = rd; wr = wr }) =
              ground (arith, e, full) in
            subst (Outcome (Between (suc need) words rest)) (sym steps) (record {
              in_argv = omega arith;
              meaning = (
                refl,
                (
                  words,
                  rest,
                  t,
                  r,
                  a.reads,
                  q,
                  omega (arith, stored, leb→le max_argc (length st.argv) full),
                ),
              );
            })
        | inr room ↦
            let st' = push st st.wr m rd wr in
            let steps : read_needed f (suc need) st ≡ read_needed f need st' =
              ground (arith, e, room) in
            subst (Outcome (Between (suc need) words rest)) (sym steps) (
              Ends-map (Between need (words ++ t ∷ []) r) (Between (suc need) words rest)
                (read_needed f need st')
                (λ st2. Between-more need words t r rest st2 (lex-shorter rest t r q))
                (ih st' t r (few-push st st.wr rd wr m room) (omega (arith, lex-shorter rest t r q))
                  b))
      ]

  raw_tail_lem :
      (f : ℕ) (st : State) (words : List (List ℕ)) (rest : List ℕ)
      → max_argc + 1 < cap
      → length st.argv ≤ max_argc
      → length rest < f
      → At text st words rest
      → Outcome (Stored true 0 words rest) (raw_tail f cap st)
  unfolding raw_tail lex
  raw_tail_lem f st words rest h few k a =
      tail (drop_spaces rest) refl (drop_spaces-CStr rest st.mem st.rd a.unread)
    where
      at : ℕ
      at = st.rd + length rest - length (drop_spaces rest)

      tail :
          (l : List ℕ)
          → l ≡ drop_spaces rest
          → CStr st.mem at l
          → Outcome (Stored true 0 words rest) (raw_tail f cap st)
      tail [] e s =
          let steps : raw_tail f cap st ≡ go (record st { rd = at }) =
            ground (arith, skip_spaces_lem rest f st.mem st.rd a.unread k, s) in
          subst (Outcome (Stored true 0 words rest)) (sym steps) (
            [],
            st.wr,
            subst (Strings st.mem st.wr st.argv) (sym (append-nil words)) a.strings,
            λ z. refl,
            omega arith,
            to_end
                (subst (λ ws. Reads text ws []) (sym (append-nil words))
                  (blanks a.reads (ap lex_at (sym e))))
                (λ z. omega arith),
          )
      tail (c ∷ cs) e s =
          let steps : raw_tail f cap st ≡ go (record st { rd = at; argv = st.argv ++ at ∷ [] }) =
            ground (arith, skip_spaces_lem rest f st.mem st.rd a.unread k, s) in
          let longer : suc (length cs) ≤ length rest =
            omega (arith, ap length e, length-drop_spaces rest) in
          let before : st.wr ≤ st.rd = elim a.room [
            | inl x ↦ x
            | inr x ↦ absurd (omega (arith, ap length x, longer))
          ] in
          let bound = at + suc (length cs) + 1 in
          let kept =
            Strings-keep st.mem st.mem st.wr bound st.argv words
              (omega (arith, length-drop_spaces rest)) (λ q x. refl) a.strings in
          subst (Outcome (Stored true 0 words rest)) (sym steps) (
            (c ∷ cs) ∷ [],
            bound,
            Strings-append st.mem bound at (c ∷ cs) st.argv words kept s (omega arith),
            λ z. absurd (omega (arith, ap length z, longer)),
            omega (arith, length-append st.argv (at ∷ [])),
            with_tail [] rest c cs refl
                (subst (λ ws. Reads text ws rest) (sym (append-nil words)) a.reads) refl (sym e)
                refl,
          )

  Stored-join :
      (need : ℕ) (words more : List (List ℕ)) (rest rest' : List ℕ) (st : State)
      → (rest ≡ [] → more ≡ [])
      → length rest' ≤ length rest
      → length more ≤ need
      → (length more ≡ need) ⊎ (rest' ≡ [])
      → Stored true 0 (words ++ more) rest' st
      → Stored true need words rest st
  Stored-join need words more rest rest' st e h n q (more', bound, s, e', k, g) = (
    more ++ more',
    bound,
    subst (Strings st.mem bound st.argv) (append_assoc words more more') s,
    λ z. ap₂ ◌++◌ (e z) (e' (nil_of_length rest' (omega (arith, ap length z)))),
    k,
    Filled-join text need words more more' rest' n q e' g,
  )

  raw_arguments_lem :
      (f : ℕ) (p : Place) (words : List (List ℕ)) (rest : List ℕ)
      → max_argc + 1 < cap
      → length p.st.argv ≤ max_argc
      → length rest < f
      → 1 ≤ p.level
      → p.level ≤ length words
      → At text p.st words rest
      → Outcome (Stored true (mandatory p.command - 1) words rest) (raw_arguments f cap p)
  unfolding raw_arguments
  raw_arguments_lem f p words rest h few k one deep a =
      Ends-bind (Between need words rest) (Stored true need words rest) (IsSound roots cap text)
        (read_needed f asked p.st) _
        (subst (λ n. Outcome (Between need words rest) (read_needed f n p.st)) same
          (read_needed_lem need f p.st words rest (omega arith) few k a))
        finish
    where
      need : ℕ
      need = mandatory p.command - 1

      asked : ℕ
      asked = if ltb 0 (mandatory p.command) then mandatory p.command - 1 else 0

      same : need ≡ asked
      same = ground arith

      finish :
          (st : State)
          → Between need words rest st
          → Outcome (Stored true need words rest) (
              if leb (mandatory p.command) (length st.argv - (p.level - 1))
              then raw_tail f cap st
              else go st)
      finish st (more, rest', b, e, short, few', n, q) =
          elim (Bool-cases (leb (mandatory p.command) (length st.argv - (p.level - 1)))) [
            | inl full ↦ rw full (
                Ends-map (Stored true 0 (words ++ more) rest') (Stored true need words rest)
                  (raw_tail f cap st) (λ x. Stored-join need words more rest rest' x e short n q)
                  (raw_tail_lem f st (words ++ more) rest' h few' (omega arith) b))
            | inr short_of ↦
                let over : rest' ≡ [] = elim q [
                  | inl y ↦ absurd (
                      ground (
                        arith,
                        y,
                        short_of,
                        length-append words more,
                        length-Strings st.mem st.wr st.argv (words ++ more) b.strings,
                      ))
                  | inr y ↦ y
                ] in
                rw short_of (
                  more,
                  st.wr,
                  b.strings,
                  e,
                  omega arith,
                  to_end (subst (Reads text (words ++ more)) over b.reads) (λ z. n),
                )
          ]

  -- The arguments of a raw command, and of any other.
  pub arguments_lem :
      (f : ℕ) (p : Place) (words : List (List ℕ)) (rest : List ℕ)
      → max_argc + 1 < cap
      → length p.st.argv ≤ max_argc
      → length rest + 1 < f
      → 1 ≤ p.level
      → p.level ≤ length words
      → At text p.st words rest
      → Outcome (Stored (is_raw p.command) (mandatory p.command - 1) words rest) (arguments f cap p)
  unfolding arguments
  arguments_lem f p words rest h few k one deep a = elim (Bool-cases (is_raw p.command)) [
    | inr normal ↦
        rw (normal, arguments)
          (Ends-map (Stored false 0 words rest) (Stored false (mandatory p.command - 1) words rest)
            (read_all f p.st)
            (λ st (more, bound, s, e, x, g). (more, bound, s, e, x, Filled-any text words more _ g))
            (read_all_lem f p.st words rest (omega arith) few k a))
    | inl raw ↦
        rw (raw, arguments) (raw_arguments_lem f p words rest h few (omega arith) one deep a)
  ]
