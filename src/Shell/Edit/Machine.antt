-- ===== src/Shell/Edit/Machine.antt =====
-- A byte that the editor receives between two sequences does what its key is for.
use wio_lite_ai.Base.{
  ℕ, ◌≡◌, ◌≢◌, refl, sym, subst, subst₂, ap, ◌∙◌, arith, true, false, ◌||◌, Bool-cases, inl, inr,
  Option, none, some, leb, ◌==◌, if◌then◌else◌, if_both,
}
use mathlib.Core.Option.{none-ne-some, some-injective}
use wio_lite_ai.Shell.Number.{between}
use wio_lite_ai.Shell.Edit.State.{Editor, normal}
use wio_lite_ai.Shell.Edit.Render.{refresh}
use wio_lite_ai.Shell.Edit.Ops.{Hooks, op_history_prev, op_history_next}
use wio_lite_ai.Shell.Edit.Keys.{control_key, normal_key, by_state, ascii_byte, input_byte}
use wio_lite_ai.Shell.Edit.Text.{Text, IsText}
use wio_lite_ai.Shell.Edit.Keymap.{text_key, edit_key}
use wio_lite_ai.Shell.Edit.Refine.{
  Edited, Turns, Turns-frame, frame, refresh-frame, unmoved, op_home-Turns, op_left-Turns,
  op_delete_fwd-Turns, op_end-Turns, op_right-Turns, op_kill_eol-Turns, op_clear_screen-Turns,
  op_kill_bol-Turns, op_del_word-Turns, op_backspace-Turns,
}
use wio_lite_ai.Shell.Edit.Typing.{op_insert-Turns}

-- What a key leaves: a text, or what `N` says where the key is not for the text alone.
abbrev pub Leaves : Editor → (Editor → Type 0) → Editor → Option Text → Type 0
Leaves e N d none = N d
Leaves e N d (some u) = Turns e d u

module _ (k : Hooks) (e : Editor) (t : Text) (v : IsText e.shell t) (N : Editor → Type 0)
    (older : N (op_history_prev k.tx e)) (newer : N (op_history_next k.tx e))
    (tab : N (k.complete e)) where
  pub control_key-Leaves :
      (b : ℕ) → Leaves e N (control_key k b e) (text_key b e.overwrite e.bs_swap t)
  unfolding control_key text_key
  control_key-Leaves b =
      let R = Leaves e N in
      if_both R (b == 0x1B) (λ _. unmoved e t v)
        (if_both R (b == 0x01) (λ _. op_home-Turns k.tx e t v)
          (if_both R (b == 0x02) (λ _. op_left-Turns k.tx e t v)
            (if_both R (b == 0x04) (λ _. op_delete_fwd-Turns k.tx e t v)
              (if_both R (b == 0x05) (λ _. op_end-Turns k.tx e t v)
                (if_both R (b == 0x06) (λ _. op_right-Turns k.tx e t v)
                  (if_both R (b == 0x0B) (λ _. op_kill_eol-Turns k.tx e t v)
                    (if_both R (b == 0x0C) (λ _. op_clear_screen-Turns k.tx e t v)
                      (if_both R (b == 0x0E) (λ _. newer)
                        (if_both R (b == 0x10) (λ _. older)
                          (if_both R (b == 0x15) (λ _. op_kill_bol-Turns k.tx e t v)
                            (if_both R (b == 0x17) (λ _. op_del_word-Turns k.tx e t v)
                              (if_both R (b == 0x09) (λ _. tab)
                                (if_both R (b == 0x08) (λ _. op_backspace-Turns k.tx e t v)
                                  (if_both R (b == 0x7F)
                                    (λ _.
                                      if_both R e.bs_swap (λ _. op_delete_fwd-Turns k.tx e t v)
                                        (op_backspace-Turns k.tx e t v))
                                    (if_both R (between 0x20 0x7E b)
                                      (λ y. op_insert-Turns k.tx b e t (printable b y) v)
                                      (unmoved e t v))))))))))))))))
    where
      printable : (c : ℕ) → between 0x20 0x7E c ≡ true → c ≢ 0
      printable c y = λ z. ground (arith, y, z)

Turns-from :
    (e e' d : Editor) (t : Text)
    → e'.shell ≡ e.shell
    → e'.esc_np ≡ e.esc_np
    → Turns e' d t
    → Turns e d t
Turns-from e e' d t a b k = (subst (λ h. Edited h d.shell t) a k.0, k.1 ∙ b)

module _ (k : Hooks) (b : ℕ) (t u : Text) (n : b == 0x03 || b == b'\r' || b == b'\n' ≡ false) where
  normal_byte-Turns :
      (e : Editor)
      → e.rx ≡ normal
      → IsText e.shell t
      → text_key b e.overwrite e.bs_swap t ≡ some u
      → Turns e (by_state k e.rx b e) u
  unfolding by_state normal_key
  normal_byte-Turns e r v s =
      let e' = record e { prev_cr = false } in
      let steps : by_state k e.rx b e ≡ control_key k b e' =
        ap (λ x. by_state k x b e) r ∙ ground (arith, n) in
      subst (λ d. Turns e d u) (sym steps)
        (subst (Leaves e' (λ d. Unit {0}) (control_key k b e')) s
          (control_key-Leaves k e' t v (λ d. Unit {0}) tt tt tt b))

  ascii_byte-Turns :
      (e : Editor)
      → e.rx ≡ normal
      → IsText e.shell t
      → text_key b e.overwrite e.bs_swap t ≡ some u
      → Turns e (ascii_byte k b e) u
  unfolding ascii_byte
  ascii_byte-Turns e r v s = elim (Bool-cases (b == 0x09)) [
    | inl y ↦
        let steps : ascii_byte k b e ≡ by_state k e.rx b e = ground (arith, y, n) in
        subst (λ d. Turns e d u) (sym steps) (normal_byte-Turns e r v s)
    | inr y ↦
        let e' = record e { tab_list_armed = false } in
        let steps : ascii_byte k b e ≡ by_state k e'.rx b e' = ground (arith, y, n) in
        subst (λ d. Turns e d u) (sym steps) (normal_byte-Turns e' r v s)
  ]

  low_byte-Turns :
      (e e' : Editor)
      → leb 0x80 b ≡ false
      → frame e' ≡ frame e
      → e.rx ≡ normal
      → IsText e.shell t
      → text_key b e.overwrite e.bs_swap t ≡ some u
      → Turns e (ascii_byte k b e') u
  low_byte-Turns e e' l f r v s =
      Turns-from e e' (ascii_byte k b e') u (ap (λ x. x.0) f) (ap (λ x. x.1) f) (
        ascii_byte-Turns e' (ap (λ x. x.2) f ∙ r) (subst (λ x. IsText x.0 t) (sym f) v)
          (ap (λ x. text_key b x.3 x.4 t) f ∙ s))

byte-Turns :
    (k : Hooks) (b : ℕ) (t u : Text) (e e' : Editor)
    → frame e' ≡ frame e
    → e.rx ≡ normal
    → IsText e.shell t
    → edit_key b e.overwrite e.bs_swap t ≡ some u
    → input_byte k b e ≡ (if leb 0x80 b then e' else ascii_byte k b e')
    → Turns e (input_byte k b e) u
unfolding edit_key
byte-Turns k b t u e e' f r v s steps = elim (Bool-cases (b == 0x03 || b == b'\r' || b == b'\n')) [
  | inl y ↦
      let key : edit_key b e.overwrite e.bs_swap t ≡ none = ground (arith, y) in
      absurd (none-ne-some u (sym key ∙ s))
  | inr n ↦ elim (Bool-cases (leb 0x80 b)) [
    | inl h ↦
        let key : edit_key b e.overwrite e.bs_swap t ≡ some t = ground (arith, n, h) in
        let keep : input_byte k b e ≡ e' = steps ∙ ground (arith, h) in
        subst₂ (λ d x. Turns e d x) (sym keep) (some-injective t u (sym key ∙ s))
          (Turns-frame e e e' t f (unmoved e t v))
    | inr l ↦
        let key : edit_key b e.overwrite e.bs_swap t ≡ text_key b e.overwrite e.bs_swap t =
          ground (arith, n, l) in
        let go : input_byte k b e ≡ ascii_byte k b e' = steps ∙ ground (arith, l) in
        subst (λ d. Turns e d u) (sym go) (low_byte-Turns k b t u n e e' l f r v (sym key ∙ s))
  ]
]

-- In the state between two sequences, and with the text `t` in the line, a byte that is a key for
-- the text alone turns it into the text that `edit_key` says, and leaves the history and the
-- place in it. Whether bytes can be sent does not matter.
pub input_byte_lem :
    (k : Hooks) (b : ℕ) (e : Editor) (t u : Text)
    → e.rx ≡ normal
    → IsText e.shell t
    → edit_key b e.overwrite e.bs_swap t ≡ some u
    → Turns e (input_byte k b e) u
unfolding input_byte edit_key
input_byte_lem k b e t u r v s = elim (Bool-cases e.render_dirty) [
  | inl y ↦
      byte-Turns k b t u e (refresh k.tx (record e { render_dirty = false }))
        (refresh-frame k.tx (record e { render_dirty = false })) r v s (ground (arith, y))
  | inr y ↦ byte-Turns k b t u e e refl r v s (ground (arith, y))
]
