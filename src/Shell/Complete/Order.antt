-- ===== src/Shell/Complete/Order.antt =====
-- Completion puts a candidate's rest into the line, and leaves the editor in order.
use wio_lite_ai.Base.{
  ℕ, ◌+◌, ◌-◌, ◌/◌, ◌≡◌, ◌⊎◌, refl, sym, subst, subst₂, ap, ◌∙◌, arith, true, false, not, ◌&&◌,
  Bool-cases, inl, inr, Option, none, some, List, [], ◌∷◌, length, take, Mem, NonNul, if◌then◌else◌,
  if_both, if_either, ltb, ◌==◌,
}
use wio_lite_ai.Shell.Parse.Tree.{Cmds}
use wio_lite_ai.Shell.Parse.Paths.{CmdsOk}
use wio_lite_ai.Shell.History.{line_size}
use wio_lite_ai.Shell.Output.{Tx}
use wio_lite_ai.Shell.Edit.State.{Editor, edit_cols}
use wio_lite_ai.Shell.Edit.Render.{refresh, with_lock}
use wio_lite_ai.Shell.Edit.Text.{Text, IsText}
use wio_lite_ai.Shell.Edit.Refine.{
  Turns, Turns-frame, frame, refresh-frame, with_lock-frame, unmoved,
}
use wio_lite_ai.Shell.Edit.Invariant.{InOrder, Lawful, InOrder-Turns}
use wio_lite_ai.Shell.Complete.{
  bel, Found, insert_at_cursor, show_list, put_list, longest, armed, complete_one, complete_many,
  tab_complete, complete_word_start, resolve_set, scan_candidates, matching,
}
use wio_lite_ai.Shell.Complete.Names.{
  NonNul-take, NamesOk, resolve_set-NamesOk, scan_candidates-NonNul,
}
use wio_lite_ai.Shell.Complete.Insert.{fitted, fitted-nil, bel-Turns, insert_at_cursor-Puts}

-- The line after a completion: with the rest of the only candidate, and a space behind it if it fits
-- at the end of the line; or with what all candidates share.
abbrev pub completed_one : List ℕ → Text → Text
completed_one tail t =
    let u = fitted tail t in
    if not (ltb (line_size - 1) (length t.chars + length tail)) && u.at == length u.chars
    then fitted (b' ' ∷ []) u
    else u

abbrev pub completed : Found → Text → Text
completed f t =
    if f.count == 0
    then t
    else if f.count == 1
    then completed_one f.tail t
    else fitted (take f.lcp f.tail) t

abbrev pub scanned : Mem → ℕ → ℕ → Option (List (List ℕ)) → Found
scanned m p plen none = record { count = 0; tail = []; lcp = 0 }
scanned m p plen (some names) = scan_candidates m p plen names

Turns-trans : (e d d' : Editor) (t u : Text) → Turns e d t → Turns d d' u → Turns e d' u
Turns-trans e d d' t u a b = (
  record {
    text = b.0.text;
    kept = (
      b.0.kept.0 ∙ a.0.kept.0,
      b.0.kept.1 ∙ a.0.kept.1,
      b.0.kept.2 ∙ a.0.kept.2,
      b.0.kept.3 ∙ a.0.kept.3,
    );
  },
  b.1 ∙ a.1,
)

module _ (tx : Tx) (e : Editor) (t : Text) (v : IsText e.shell t) where
  redrawn : (d : Editor) (u : Text) → Turns e d u → Turns e (refresh tx d) u
  redrawn d u k = Turns-frame e d (refresh tx d) u (refresh-frame tx d) k

  listed :
      (body : Editor → Editor)
      → ((d : Editor) → frame (body d) ≡ frame d)
      → Turns e (with_lock tx body e) t
  listed body same =
      Turns-frame e e (with_lock tx body e) t (with_lock-frame tx body e same) (unmoved e t v)

  show_list-Turns : (names : List (List ℕ)) → Turns e (show_list tx names e) t
  unfolding show_list put_list
  show_list-Turns names =
      let P = λ (d : Editor). Turns e d t in
      let cols = edit_cols e in
      let wide = longest 0 names in
      let colw = if ltb cols (wide + 2) then cols else wide + 2 in
      let body = put_list tx colw (if cols / colw == 0 then 1 else cols / colw) names in
      let e' = with_lock tx body e in
      let drawn : Turns e e' t = listed body (λ d. refl) in
      if_either P (wide == 0) {x = e} (unmoved e t v) (
        if_either P (tx.lock_ok e.console.asked)
          {x = refresh tx (record e' { old_rows = 0; draw_row = 0 })} {y = e'}
          (redrawn (record e' { old_rows = 0; draw_row = 0 }) t drawn) drawn)

complete_one-Turns :
    (tx : Tx) (e : Editor) (t : Text)
    → IsText e.shell t
    → (tail : List ℕ) → NonNul tail
    → Turns e (complete_one tx tail e) (completed_one tail t)
unfolding complete_one
complete_one-Turns tx e t v tail z =
    let (ok, e') = insert_at_cursor tx tail e in
    let (said, k) = insert_at_cursor-Puts tx tail e t z v in
    let u = fitted tail t in
    let e'' = (insert_at_cursor tx (b' ' ∷ []) e').1 in
    let (said', k') =
      insert_at_cursor-Puts tx (b' ' ∷ []) e' u ((λ x. omega (arith, x)), tt) k.0.text in
    let test : (ok && e'.shell.cur == e'.shell.len)
        ≡ (not (ltb (line_size - 1) (length t.chars + length tail)) && u.at == length u.chars) =
      ap (λ b. b && e'.shell.cur == e'.shell.len) said
      ∙ ap (λ n. not (ltb (line_size - 1) (length t.chars + length tail)) && n == e'.shell.len)
          k.0.text.cur_is
      ∙ ap (λ n. not (ltb (line_size - 1) (length t.chars + length tail)) && u.at == n)
          k.0.text.len_is in
    let R = λ (x : Editor) (y : Text). Turns e (refresh tx x) y in
    subst (λ b. R (if b then e'' else e') (completed_one tail t)) (sym test)
      (if_both R
        (not (ltb (line_size - 1) (length t.chars + length tail)) && u.at == length u.chars)
        (λ _.
          redrawn tx e t v e'' (fitted (b' ' ∷ []) u)
            (Turns-trans e e' e'' u (fitted (b' ' ∷ []) u) k k'))
        (redrawn tx e t v e' u k))

complete_many-Turns :
    (tx : Tx) (e : Editor) (t : Text)
    → IsText e.shell t
    → (names : List (List ℕ)) (f : Found) → NonNul f.tail
    → Turns e (complete_many tx names f e) (fitted (take f.lcp f.tail) t)
unfolding complete_many bel
complete_many-Turns tx e t v names f z =
    let (ok, e') = insert_at_cursor tx (take f.lcp f.tail) e in
    let u = fitted (take f.lcp f.tail) t in
    let (said, k) =
      insert_at_cursor-Puts tx (take f.lcp f.tail) e t (NonNul-take f.lcp f.tail z) v in
    let e'' = if f.lcp == 0 then e else e' in
    let k'' : Turns e e'' u = nothing_put (Bool-cases (f.lcp == 0)) in
    let P = λ (d : Editor). Turns e d u in
    if_either P (not (f.lcp == 0) && ok) (redrawn tx e t v e' u k) (
      if_either P e.tab_list_armed
        (Turns-trans e e'' (show_list tx names e'') u u k''
          (show_list-Turns tx e'' u k''.0.text names))
        (if_either P (f.lcp == 0)
          (Turns-trans e e'' (bel tx (armed true e'')) u u k''
            (bel-Turns tx (armed true e'') u k''.0.text))
          k''))
  where
    nothing_put :
        ((f.lcp == 0) ≡ true) ⊎ ((f.lcp == 0) ≡ false)
        → Turns e
            (if f.lcp == 0 then e else (insert_at_cursor tx (take f.lcp f.tail) e).1)
            (fitted (take f.lcp f.tail) t)
    nothing_put (inl y) =
        let none_put : f.lcp ≡ 0 = ground (arith, y) in
        let same : fitted (take f.lcp f.tail) t ≡ t =
          fitted-nil (take f.lcp f.tail) t (ap (λ n. length (take n f.tail)) none_put) v.room in
        subst₂ (Turns e)
          (sym (ap (λ b. if b then e else (insert_at_cursor tx (take f.lcp f.tail) e).1) y))
          (sym same) (unmoved e t v)
    nothing_put (inr n) =
        subst (λ d. Turns e d (fitted (take f.lcp f.tail) t))
          (sym (ap (λ b. if b then e else (insert_at_cursor tx (take f.lcp f.tail) e).1) n))
          (insert_at_cursor-Puts tx (take f.lcp f.tail) e t (NonNul-take f.lcp f.tail z) v).1

-- Where the commands' names have no NUL in them, and with the text `t` in the line, `cli_tab_complete`
-- puts in front of the cursor what the scan of the candidates says: of a single candidate the rest, and a
-- space behind it at the end of the line, and of more than one what they share behind the prefix;
-- each where it fits, and nothing where there is no candidate. The history is left as it was.
pub tab_complete_lem :
    (tx : Tx) (roots : Cmds) (e : Editor) (t : Text)
    → CmdsOk roots
    → IsText e.shell t
    → let ws = complete_word_start e.shell in
      Turns e (tab_complete tx roots e) (
        completed
          (scanned e.shell.line ws (e.shell.cur - ws) (resolve_set e.shell.line roots ws))
          t)
unfolding tab_complete
tab_complete_lem tx roots e t z v =
    by_set (resolve_set e.shell.line roots ws) (resolve_set-NamesOk e.shell.line roots ws z)
  where
    ws : ℕ
    ws = complete_word_start e.shell

    plen : ℕ
    plen = e.shell.cur - ws

    by_set :
        (o : Option (List (List ℕ)))
        → NamesOk o
        → Turns e
            (elim o [
              | none ↦ bel tx (armed false e)
              | some names ↦
                  let found = scan_candidates e.shell.line ws plen names in
                  if found.count == 0
                  then bel tx (armed false e)
                  else if found.count == 1
                  then complete_one tx found.tail (armed false e)
                  else complete_many tx (matching e.shell.line ws plen names) found e
            ])
            (completed (scanned e.shell.line ws plen o) t)
    by_set none k = bel-Turns tx (armed false e) t v
    by_set (some names) k =
        let found = scan_candidates e.shell.line ws plen names in
        let clean = scan_candidates-NonNul e.shell.line ws plen names k in
        if_both (Turns e) (found.count == 0) (λ _. bel-Turns tx (armed false e) t v)
          (if_both (Turns e) (found.count == 1)
            (λ _. complete_one-Turns tx (armed false e) t v found.tail clean)
            (complete_many-Turns tx e t v (matching e.shell.line ws plen names) found clean))

-- Where the commands' names have no NUL in them, `cli_tab_complete` leaves an editor in order.
pub tab_complete-InOrder :
    (tx : Tx) (roots : Cmds) (e : Editor)
    → CmdsOk roots
    → InOrder e
    → InOrder (tab_complete tx roots e)
tab_complete-InOrder tx roots e z s =
    InOrder-Turns e (tab_complete tx roots e) _ s
      (tab_complete_lem tx roots e s.sound.text z s.sound.is_text)

-- The editor with this completion, and any dispatch that leaves an editor in order.
pub Lawful-tab_complete :
    (tx : Tx) (roots : Cmds) (dispatch : Editor → Editor)
    → CmdsOk roots
    → ((e : Editor) → InOrder e → InOrder (dispatch e))
    → Lawful (record { tx = tx; dispatch = dispatch; complete = tab_complete tx roots })
Lawful-tab_complete tx roots dispatch z d = record {
  dispatch-InOrder = d;
  complete-InOrder = λ e s. tab_complete-InOrder tx roots e z s;
}
