-- ===== src/Shell/Edit/Refine.antt =====
-- Every operation of the editor does to the text what its key is for, and leaves the history.
use wio_lite_ai.Base.{
  ℕ, ◌+◌, ◌-◌, ◌%◌, ◌^◌, ◌≤◌, ◌<◌, ◌≡◌, refl, sym, subst, ap, subst₂, ◌∙◌, arith, min, Bool, true,
  false, not, ◌||◌, Bool-cases, leb→le, ltb→lt, inl, inr, List, [], ◌∷◌, length, take, ltb, leb,
  ◌==◌,
}
use wio_lite_ai.Shell.History.{History, copy}
use wio_lite_ai.Shell.Output.{Tx, take_lock}
use wio_lite_ai.Shell.Edit.State.{Editor, Rx, edit_cols}
use wio_lite_ai.Shell.Edit.Render.{refresh, reposition, with_lock, repaint, move_cursor, clr_screen}
use wio_lite_ai.Shell.Edit.Buffer.{
  erase_before, erase_last, erase_at, cut_tail, cut_head, cut_word, set_len, word_start, word_end,
  on_while,
}
use wio_lite_ai.Shell.Edit.Words.{skip, back_to_front, word_start-skip, word_end-skip}
use wio_lite_ai.Shell.Edit.Ops.{
  set_shell, set_cur, say, fast_backspace, op_backspace, op_delete_fwd, op_kill_eol, op_kill_bol,
  op_del_word, op_left, op_right, op_home, op_end, op_word_left, op_word_right, op_clear_screen,
  go_to, put_all,
}
use wio_lite_ai.Shell.Edit.Text.{Text, IsText, cut, splice-IsText, cut_tail-IsText}
use wio_lite_ai.Shell.Edit.Keymap.{
  rub_out, delete, kill_to_end, kill_to_start, kill_word, word_left, word_right, move, move_none,
  cut_none, cut-congr,
}

-- What is left of the history and of the place in it.
abbrev pub Kept : History → History → Type 0
Kept h g = (g.hist ≡ h.hist) × (g.used ≡ h.used) × (g.nav_on ≡ h.nav_on) × (g.nav ≡ h.nav)

-- The line of `g` is the text `t`, and its history is that of `h`.
pub record Edited (h g : History) (t : Text) : Type 0 where
  pub text : IsText g t
  pub kept : Kept h g

-- What drawing leaves: the line with its history, the count of escape parameters, and the modes.
abbrev pub frame : Editor → History × ℕ × Rx × Bool × Bool
frame e = (e.shell, e.esc_np, e.rx, e.overwrite, e.bs_swap)

pub with_lock-frame :
    (tx : Tx) (body : Editor → Editor) (e : Editor)
    → ((d : Editor) → frame (body d) ≡ frame d)
    → frame (with_lock tx body e) ≡ frame e
unfolding with_lock take_lock
with_lock-frame tx body e same = elim (Bool-cases (tx.lock_ok e.console.asked)) [
  | inl y ↦ rw y (same (record e { console = record (e.console) { asked = e.console.asked + 1 } }))
  | inr n ↦ rw n refl
]

pub refresh-frame : (tx : Tx) (e : Editor) → frame (refresh tx e) ≡ frame e
unfolding refresh repaint
refresh-frame tx e = with_lock-frame tx (repaint tx) e (λ d. refl)

pub reposition-frame : (tx : Tx) (e : Editor) → frame (reposition tx e) ≡ frame e
unfolding reposition move_cursor
reposition-frame tx e = with_lock-frame tx (move_cursor tx) e (λ d. refl)

-- From `e` to `d`, the line becomes the text `t`.
abbrev pub Turns : Editor → Editor → Text → Type 0
Turns e d t = Edited e.shell d.shell t × (d.esc_np ≡ e.esc_np)

pub Turns-frame : (e d d' : Editor) (t : Text) → frame d' ≡ frame d → Turns e d t → Turns e d' t
Turns-frame e d d' t s k = subst (λ f. Edited e.shell f.0 t × (f.1 ≡ e.esc_np)) (sym s) k

pub unmoved : (e : Editor) (t : Text) → IsText e.shell t → Turns e e t
unmoved e t v = (record { text = v; kept = (refl, refl, refl, refl) }, refl)

module _ (tx : Tx) (e : Editor) (t : Text) (v : IsText e.shell t) where
  abbrev pub Does : Editor → Text → Type 0
  Does d u = Turns e d u

  moved : (k n : ℕ) → n ≡ k → k ≤ length t.chars → Does (reposition tx (set_cur e n)) (move k t)
  moved k n s b =
      Turns-frame e (set_cur e n) (reposition tx (set_cur e n)) (move k t)
        (reposition-frame tx (set_cur e n))
        (
          record {
            text = record {
              string = v.string;
              len_is = v.len_is;
              cur_is = s;
              within = b;
              room = v.room;
            };
            kept = (refl, refl, refl, refl);
          },
          refl,
        )

  pub same : (d : Editor) (u : Text) → d ≡ e → u ≡ t → Does d u
  same d u s s' = subst₂ (λ x y. Does x y) (sym s) (sym s') (unmoved e t v)

  -- What is between `i` and `j` taken out, the numbers being those of `u`.
  spliced :
      (i j k n z i' j' : ℕ)
      → i ≡ i'
      → j ≡ j'
      → k ≡ i'
      → i ≤ j
      → j ≤ length t.chars
      → n ≡ length t.chars - j
      → z ≡ i + n
      → let h =
          set_len z (record (e.shell) { line = copy e.shell.line i e.shell.line j n; cur = k }) in
        Edited e.shell h (cut i' j' i' t)
  unfolding set_len
  spliced i j k n z i' j' a b c le le' d f =
      let h =
        set_len z (record (e.shell) { line = copy e.shell.line i e.shell.line j n; cur = k }) in
      record {
        text =
            subst (IsText h) (cut-congr t i j k i' j' i' a b c)
              (splice-IsText e.shell t i j k n z v le le' (omega (arith, a, c)) d f);
        kept = (refl, refl, refl, refl);
      }

  cut_off :
      (i n i' j' : ℕ)
      → n ≡ i
      → i ≡ i'
      → length t.chars ≡ j'
      → i ≤ length t.chars
      → Edited e.shell (set_len n (record (e.shell) { cur = n })) (cut i' j' i' t)
  unfolding set_len
  cut_off i n i' j' s a b le = record {
    text =
        subst (IsText (set_len n (record (e.shell) { cur = n })))
          (cut-congr t n (length t.chars) n i' j' i' (s ∙ a) b (s ∙ a))
          (cut_tail-IsText e.shell t n v (omega (arith, s)));
    kept = (refl, refl, refl, refl);
  }

  pub changed :
      (d : Editor) (h : History) (u : Text)
      → d ≡ refresh tx (set_shell e h)
      → Edited e.shell h u
      → Does d u
  changed d h u s k =
      subst (λ x. Does x u) (sym s)
        (Turns-frame e (set_shell e h) (refresh tx (set_shell e h)) u
          (refresh-frame tx (set_shell e h)) (k, refl))

  pub op_delete_fwd-Turns : Does (op_delete_fwd tx e) (delete t)
  unfolding op_delete_fwd erase_at set_len
  op_delete_fwd-Turns = elim (Bool-cases (leb e.shell.len e.shell.cur)) [
    | inl y ↦ same (op_delete_fwd tx e) (delete t) (ground (arith, y)) (
        cut_none t t.at (min (t.at + 1) (length t.chars)) t.at
          (omega (arith, v.len_is, v.cur_is, v.within, leb→le e.shell.len e.shell.cur y)) refl)
    | inr n ↦
        let lt : e.shell.cur < e.shell.len = ground (arith, n) in
        changed (op_delete_fwd tx e) (erase_at e.shell) (delete t) (ground (arith, n)) (
          spliced e.shell.cur (e.shell.cur + 1) e.shell.cur (e.shell.len - e.shell.cur - 1)
            ((e.shell.len + 2 ^ 16 - 1) % 2 ^ 16) t.at (min (t.at + 1) (length t.chars)) v.cur_is
            (omega (arith, v.cur_is, v.len_is)) v.cur_is (omega arith) (omega (arith, v.len_is))
            (omega (arith, v.len_is)) (omega (arith, v.len_is, v.room)))
  ]

  -- The bytes that a console prints leave the line alone.
  pub said :
      (d : Editor) (bs : List ℕ) (h : History) (u : Text)
      → d ≡ say tx bs (set_shell e h)
      → Edited e.shell h u
      → Does d u
  unfolding say
  said d bs h u s k = subst (λ x. Does x u) (sym s) (k, refl)

  pub op_kill_eol-Turns : Does (op_kill_eol tx e) (kill_to_end t)
  unfolding op_kill_eol cut_tail
  op_kill_eol-Turns = elim (Bool-cases (leb e.shell.len e.shell.cur)) [
    | inl y ↦ same (op_kill_eol tx e) (kill_to_end t) (ground (arith, y)) (
        cut_none t t.at (length t.chars) t.at
          (omega (arith, v.len_is, v.cur_is, v.within, leb→le e.shell.len e.shell.cur y)) refl)
    | inr n ↦ changed (op_kill_eol tx e) (cut_tail e.shell) (kill_to_end t) (ground (arith, n)) (
        cut_off e.shell.cur e.shell.cur t.at (length t.chars) refl v.cur_is refl
          (omega (arith, v.cur_is, v.within)))
  ]

  at_start : e.shell.cur == 0 ≡ true → t.at ≡ 0
  at_start y = ground (arith, y, v.cur_is)

  pub op_kill_bol-Turns : Does (op_kill_bol tx e) (kill_to_start t)
  unfolding op_kill_bol cut_head
  op_kill_bol-Turns = elim (Bool-cases (e.shell.cur == 0)) [
    | inl y ↦
        same (op_kill_bol tx e) (kill_to_start t) (ground (arith, y))
          (cut_none t 0 t.at 0 (omega (arith, at_start y)) (omega (arith, at_start y)))
    | inr n ↦ changed (op_kill_bol tx e) (cut_head e.shell) (kill_to_start t) (ground (arith, n)) (
        spliced 0 e.shell.cur 0 (e.shell.len - e.shell.cur) ((e.shell.len - e.shell.cur) % 2 ^ 16) 0
          t.at refl v.cur_is refl (omega arith) (omega (arith, v.cur_is, v.within))
          (omega (arith, v.len_is)) (omega (arith, v.len_is, v.room)))
  ]

  at_end :
      not (e.shell.cur == e.shell.len)
          || e.shell.len == 0
          || (length e.prompt + e.shell.len) % edit_cols e == 0
        ≡ false
      → e.shell.cur ≡ e.shell.len
  at_end y = ground (arith, y)

  pub op_backspace-Turns : Does (op_backspace tx e) (rub_out t)
  unfolding op_backspace fast_backspace erase_last erase_before
  op_backspace-Turns = elim (Bool-cases (e.shell.cur == 0)) [
    | inl y ↦ same (op_backspace tx e) (rub_out t) (ground (arith, y)) (
        cut_none t (t.at - 1) t.at (t.at - 1) (omega (arith, at_start y))
          (omega (arith, at_start y)))
    | inr n ↦
        let some_text : 0 < e.shell.cur = ground (arith, n) in
        let back : (e.shell.cur + 2 ^ 16 - 1) % 2 ^ 16 ≡ e.shell.cur - 1 =
          omega (arith, v.cur_is, v.within, v.room) in
        elim (Bool-cases (
          not (e.shell.cur == e.shell.len)
          || e.shell.len == 0
          || (length e.prompt + e.shell.len) % edit_cols e == 0)) [
            | inl slow ↦
                changed (op_backspace tx e) (erase_before e.shell) (rub_out t)
                  (ground (arith, n, slow))
                  (spliced (e.shell.cur - 1) e.shell.cur ((e.shell.cur + 2 ^ 16 - 1) % 2 ^ 16)
                    (e.shell.len - e.shell.cur) ((e.shell.len + 2 ^ 16 - 1) % 2 ^ 16) (t.at - 1)
                    t.at (omega (arith, v.cur_is)) v.cur_is (omega (arith, back, v.cur_is))
                    (omega arith) (omega (arith, v.cur_is, v.within)) (omega (arith, v.len_is))
                    (omega (arith, v.len_is, v.room, v.cur_is, v.within)))
            | inr fast ↦
                said (op_backspace tx e) (8 ∷ b' ' ∷ 8 ∷ []) (erase_last e.shell) (rub_out t)
                  (ground (arith, n, fast))
                  (cut_off (e.shell.cur - 1) ((e.shell.len + 2 ^ 16 - 1) % 2 ^ 16) (t.at - 1) t.at
                    (omega (arith, at_end fast, v.len_is, v.room)) (omega (arith, v.cur_is))
                    (omega (arith, at_end fast, v.cur_is, v.len_is))
                    (omega (arith, v.cur_is, v.within)))
          ]
  ]

  not_in : ltb e.shell.cur e.shell.len ≡ false → e.shell.len ≤ e.shell.cur
  not_in n = ground (arith, n)

  stepped :
      (d : Editor) (k n : ℕ)
      → d ≡ reposition tx (set_cur e n)
      → n ≡ k
      → k ≤ length t.chars
      → Does d (move k t)
  stepped d k n s a b = subst (λ x. Does x (move k t)) (sym s) (moved k n a b)

  pub op_left-Turns : Does (op_left tx e) (move (t.at - 1) t)
  unfolding op_left
  op_left-Turns = elim (Bool-cases (ltb 0 e.shell.cur)) [
    | inl y ↦
        stepped (op_left tx e) (t.at - 1) ((e.shell.cur + 2 ^ 16 - 1) % 2 ^ 16) (ground (arith, y))
          (omega (arith, ltb→lt 0 e.shell.cur y, v.cur_is, v.within, v.room))
          (omega (arith, v.within))
    | inr n ↦
        same (op_left tx e) (move (t.at - 1) t) (ground (arith, n))
          (move_none t (t.at - 1) (ground (arith, n, v.cur_is)))
  ]

  pub op_right-Turns : Does (op_right tx e) (move (min (t.at + 1) (length t.chars)) t)
  unfolding op_right
  op_right-Turns =
      let k = min (t.at + 1) (length t.chars) in
      elim (Bool-cases (ltb e.shell.cur e.shell.len)) [
        | inl y ↦
            stepped (op_right tx e) k ((e.shell.cur + 1) % 2 ^ 16) (ground (arith, y))
              (omega (arith, ltb→lt e.shell.cur e.shell.len y, v.cur_is, v.len_is, v.room))
              (omega arith)
        | inr n ↦
            same (op_right tx e) (move k t) (ground (arith, n))
              (move_none t k (omega (arith, not_in n, v.cur_is, v.len_is, v.within)))
      ]

  pub op_home-Turns : Does (op_home tx e) (move 0 t)
  unfolding op_home
  op_home-Turns = elim (Bool-cases (ltb 0 e.shell.cur)) [
    | inl y ↦ stepped (op_home tx e) 0 0 (ground (arith, y)) refl (omega arith)
    | inr n ↦
        same (op_home tx e) (move 0 t) (ground (arith, n))
          (move_none t 0 (ground (arith, n, v.cur_is)))
  ]

  pub op_end-Turns : Does (op_end tx e) (move (length t.chars) t)
  unfolding op_end
  op_end-Turns = elim (Bool-cases (ltb e.shell.cur e.shell.len)) [
    | inl y ↦
        stepped (op_end tx e) (length t.chars) e.shell.len (ground (arith, y)) v.len_is
          (omega arith)
    | inr n ↦
        same (op_end tx e) (move (length t.chars) t) (ground (arith, n))
          (move_none t (length t.chars) (omega (arith, not_in n, v.cur_is, v.len_is, v.within)))
  ]

  go_to-Turns : (i k : ℕ) → i ≡ k → k ≤ length t.chars → Does (go_to tx i e) (move k t)
  unfolding go_to
  go_to-Turns i k s le = elim (Bool-cases (i == e.shell.cur)) [
    | inl y ↦
        same (go_to tx i e) (move k t) (ground (arith, y))
          (move_none t k (ground (arith, y, s, v.cur_is)))
    | inr n ↦
        stepped (go_to tx i e) k (i % 2 ^ 16) (ground (arith, n)) (omega (arith, s, le, v.room)) le
  ]

  word_start_lem : (word_start e.shell e.shell.cur ≡ word_left t) × (word_left t ≤ t.at)
  unfolding word_start word_left
  word_start_lem =
      let (a, b) =
        word_start-skip e.shell.line t.chars v.string e.shell.cur
          (omega (arith, v.cur_is, v.within)) in
      let w : word_start e.shell e.shell.cur ≡ word_left t =
        a
        ∙ ap (λ i. length (skip false (skip true (back_to_front (take i t.chars) [])))) v.cur_is in
      (w, omega (arith, w, b, v.cur_is))

  abbrev Ends : ℕ → Type 0
  Ends k = (k ≡ word_right t) × (word_right t ≤ length t.chars)

  word_end_lem : (word_end e.shell e.shell.cur ≡ word_right t) × (word_right t ≤ length t.chars)
  unfolding word_end word_right
  word_end_lem =
      subst₂
        (λ i n. Ends (
          on_while false (n - on_while true (n - i) e.shell.line i) e.shell.line
            (on_while true (n - i) e.shell.line i)))
        (sym v.cur_is) (sym v.len_is)
        ((word_end-skip e.shell.line t.chars v.string t.at v.within).0, omega arith)

  pub op_word_left-Turns : Does (op_word_left tx e) (move (word_left t) t)
  unfolding op_word_left
  op_word_left-Turns =
      go_to-Turns (word_start e.shell e.shell.cur) (word_left t) word_start_lem.0
        (omega (arith, word_start_lem.1, v.within))

  pub op_word_right-Turns : Does (op_word_right tx e) (move (word_right t) t)
  unfolding op_word_right
  op_word_right-Turns =
      go_to-Turns (word_end e.shell e.shell.cur) (word_right t) word_end_lem.0 word_end_lem.1

  pub op_del_word-Turns : Does (op_del_word tx e) (kill_word t)
  unfolding op_del_word cut_word
  op_del_word-Turns =
      let (w, le) = word_start_lem in
      let i = word_start e.shell e.shell.cur in
      elim (Bool-cases (e.shell.cur == 0)) [
        | inl y ↦ same (op_del_word tx e) (kill_word t) (ground (arith, y)) (
            cut_none t (word_left t) t.at (word_left t) (omega (arith, le, at_start y))
              (omega (arith, le, at_start y)))
        | inr n ↦
            changed (op_del_word tx e) (cut_word i e.shell) (kill_word t) (ground (arith, n)) (
              spliced i e.shell.cur (i % 2 ^ 16) (e.shell.len - e.shell.cur)
                ((e.shell.len - (e.shell.cur - i)) % 2 ^ 16) (word_left t) t.at w v.cur_is
                (omega (arith, w, le, v.within, v.room)) (omega (arith, w, le, v.cur_is))
                (omega (arith, v.cur_is, v.within)) (omega (arith, v.len_is))
                (omega (arith, w, le, v.len_is, v.cur_is, v.within, v.room)))
      ]

  pub op_clear_screen-Turns : Does (op_clear_screen tx e) t
  unfolding op_clear_screen put_all
  op_clear_screen-Turns =
      let e' = with_lock tx (put_all tx clr_screen) e in
      Turns-frame e e (op_clear_screen tx e) t
        (refresh-frame tx (record e' { old_rows = 0; draw_row = 0 })
          ∙ with_lock-frame tx (put_all tx clr_screen) e (λ d. refl))
        (unmoved e t v)
