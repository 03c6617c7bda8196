-- ===== src/Shell/Edit/Typing.antt =====
-- A printable key types its character, in front of the cursor or over what is behind it.
use wio_lite_ai.Base.{
  ℕ, ◌+◌, ◌-◌, ◌%◌, ◌<◌, ◌≡◌, ◌≢◌, refl, subst, arith, true, false, not, ◌&&◌, ◌||◌, Bool-cases,
  inl, inr, [], ◌∷◌, length, ltb, leb, ◌==◌,
}
use wio_lite_ai.Shell.History.{line_size}
use wio_lite_ai.Shell.Output.{Tx}
use wio_lite_ai.Shell.Edit.State.{Editor, edit_cols}
use wio_lite_ai.Shell.Edit.Buffer.{overwrite_char, append_char, insert_char}
use wio_lite_ai.Shell.Edit.Ops.{say, fast_append, op_insert}
use wio_lite_ai.Shell.Edit.Text.{
  Text, IsText, type_char, replace_char, overwrite-IsText, insert-IsText, append-IsText,
}
use wio_lite_ai.Shell.Edit.Keymap.{typed}
use wio_lite_ai.Shell.Edit.Refine.{Edited, Does, changed, said}

module _ (tx : Tx) (c : ℕ) (e : Editor) (t : Text) (z : c ≢ 0) (v : IsText e.shell t) where
  abbrev Typed : Text → Type 0
  Typed u = Does tx e t v (op_insert tx c e) u

  over : e.overwrite && ltb e.shell.cur e.shell.len ≡ true → Typed (replace_char c t)
  unfolding op_insert overwrite_char
  over y =
      changed tx e t v (op_insert tx c e) (overwrite_char c e.shell) (replace_char c t)
        (ground (arith, y))
        (record {
          text = overwrite-IsText c e.shell t z (ground (arith, y, v.cur_is, v.len_is)) v;
          kept = (refl, refl, refl, refl);
        })

  full :
      e.overwrite && ltb e.shell.cur e.shell.len ≡ false
      → leb (line_size - 1) e.shell.len ≡ true
      → Typed t
  unfolding op_insert say
  full n y =
      said tx e t v (op_insert tx c e) (7 ∷ []) e.shell t (ground (arith, n, y))
        (record { text = v; kept = (refl, refl, refl, refl) })

  appended :
      e.overwrite && ltb e.shell.cur e.shell.len ≡ false
      → leb (line_size - 1) e.shell.len ≡ false
      → e.shell.cur == e.shell.len ≡ true
      → Typed (type_char c t)
  unfolding op_insert fast_append append_char
  appended n m y =
      let room : length t.chars + 1 < line_size = ground (arith, m, v.len_is) in
      let end : e.shell.cur ≡ e.shell.len = ground (arith, y) in
      let d : Edited e.shell (append_char c e.shell) (type_char c t) = record {
        text = append-IsText c e.shell t z room end v;
        kept = (refl, refl, refl, refl);
      } in
      elim (Bool-cases (
        not (e.shell.cur == e.shell.len)
        || (length e.prompt + e.shell.len + 1) % edit_cols e == 0)) [
          | inl slow ↦
              changed tx e t v (op_insert tx c e) (append_char c e.shell) (type_char c t)
                (ground (arith, n, m, y, slow)) d
          | inr fast ↦
              said tx e t v (op_insert tx c e) (c ∷ []) (append_char c e.shell) (type_char c t)
                (ground (arith, n, m, y, fast)) d
        ]

  inserted :
      e.overwrite && ltb e.shell.cur e.shell.len ≡ false
      → leb (line_size - 1) e.shell.len ≡ false
      → e.shell.cur == e.shell.len ≡ false
      → Typed (type_char c t)
  unfolding op_insert insert_char
  inserted n m y =
      changed tx e t v (op_insert tx c e) (insert_char c e.shell) (type_char c t)
        (ground (arith, n, m, y))
        (record {
          text = insert-IsText c e.shell t z (ground (arith, m, v.len_is)) v;
          kept = (refl, refl, refl, refl);
        })

  pub op_insert-Turns : Typed (typed e.overwrite c t)
  op_insert-Turns = elim (Bool-cases (e.overwrite && ltb e.shell.cur e.shell.len)) [
    | inl y ↦ subst Typed (ground (arith, y, v.cur_is, v.len_is)) (over y)
    | inr n ↦ elim (Bool-cases (leb (line_size - 1) e.shell.len)) [
      | inl y ↦ subst Typed (ground (arith, n, y, v.cur_is, v.len_is)) (full n y)
      | inr m ↦
          let u : type_char c t ≡ typed e.overwrite c t =
            ground (arith, n, m, v.cur_is, v.len_is) in
          elim (Bool-cases (e.shell.cur == e.shell.len)) [
            | inl y ↦ subst Typed u (appended n m y)
            | inr y ↦ subst Typed u (inserted n m y)
          ]
    ]
  ]
