-- ===== src/Shell/Edit/Invariant.antt =====
-- What every byte leaves in order: the line is a text, the history holds lines, the place in it is
-- one of them, and an escape sequence has at most two parameters.
use wio_lite_ai.Base.{
  ℕ, ◌+◌, ◌≤◌, ◌≡◌, refl, sym, subst, subst₂, ◌∙◌, arith, Bool, true, false, not, ◌&&◌, ◌||◌,
  Option, none, some, List, [], length, ◌==◌, if◌then◌else◌,
}
use wio_lite_ai.Shell.Output.{Tx}
use wio_lite_ai.Shell.History.{History, prev, next, history_size}
use wio_lite_ai.Shell.History.Packed.{Short, Packed}
use wio_lite_ai.Shell.History.Moves.{Holds}
use wio_lite_ai.Shell.History.Walks.{At, older, newer}
use wio_lite_ai.Shell.History.Recall.{Moved, Moves, stays, to_live, to_line, prev_lem, next_lem}
use wio_lite_ai.Shell.Edit.State.{Editor}
use wio_lite_ai.Shell.Edit.Render.{refresh, reposition}
use wio_lite_ai.Shell.Edit.Ops.{
  Hooks, set_shell, set_cur, recalled, op_history_prev, op_history_next, edit_submit,
}
use wio_lite_ai.Shell.Edit.Text.{Text, IsText}
use wio_lite_ai.Shell.Edit.Keymap.{text_key}
use wio_lite_ai.Shell.Edit.Keys.{control_key, normal_key}
use wio_lite_ai.Shell.Edit.Machine.{Leaves, control_key-Leaves}
use wio_lite_ai.Shell.Edit.Refine.{Kept, Edited, Turns, frame, refresh-frame, reposition-frame}

pub record Sound (h : History) : Type 0 where
  pub lines : List (List ℕ)
  pub place : Option ℕ
  pub text : Text
  pub holds : Holds h lines
  pub short : Short lines
  pub at : At h lines place
  pub is_text : IsText h text

pub record InOrder (e : Editor) : Type 0 where
  pub sound : Sound e.shell
  pub params : e.esc_np ≤ 2

At-Kept : (h g : History) (ws : List (List ℕ)) (o : Option ℕ) → Kept h g → At h ws o → At g ws o
At-Kept h g ws none k a = k.2 ∙ a
At-Kept h g ws (some i) k a = (k.2 ∙ a.0, a.1, k.3 ∙ a.2)

pub Sound-Edited : (h g : History) (t : Text) → Sound h → Edited h g t → Sound g
Sound-Edited h g t s d = record {
  lines = s.lines;
  place = s.place;
  text = t;
  holds = record {
    packed = subst₂ (λ m n. Packed m 0 s.lines n) (sym d.kept.0) (sym d.kept.1) s.holds.packed;
    fits = omega (arith, d.kept.1, s.holds.fits);
  };
  short = s.short;
  at = At-Kept h g s.lines s.place d.kept s.at;
  is_text = d.text;
}

pub InOrder-Turns : (e d : Editor) (t : Text) → InOrder e → Turns e d t → InOrder d
InOrder-Turns e d t s k = record {
  sound = Sound-Edited e.shell d.shell t s.sound k.0;
  params = omega (arith, s.params, k.1);
}

pub InOrder-frame : (e d : Editor) → frame d ≡ frame e → InOrder e → InOrder d
InOrder-frame e d f s = record {
  sound = subst (λ x. Sound x.0) (sym f) s.sound;
  params = subst (λ x. x.1 ≤ 2) (sym f) s.params;
}

-- A move in the history leads to an editor in order.
Moved-text :
    (h g : History) (ws : List (List ℕ)) (o o' : Option ℕ) (t : Text)
    → IsText h t
    → Moved h ws o o' g
    → (u : Text) × IsText g u
Moved-text h g ws o o' t v stays = (t, v)
Moved-text h g ws o o' t v (to_live s l c) = (
  record { chars = []; at = 0 },
  record { string = s; len_is = l; cur_is = c; within = omega arith; room = omega arith },
)
Moved-text h g ws o o' t v (to_line w other f s) = (
  record { chars = w; at = length w },
  record {
    string = s.text;
    len_is = s.len_is;
    cur_is = s.cur_is;
    within = omega arith;
    room = s.room;
  },
)

Sound-Moves :
    (h : History) (s : Sound h) (o : Option ℕ) (m : Option History)
    → Moves h s.lines s.place o m
    → Sound (recalled m h)
Sound-Moves h s o m (g, e, holds, at, moved) =
    let (u, v) = Moved-text h g s.lines s.place o s.text s.is_text moved in
    subst (λ x. Sound (recalled x h)) (sym e)
      (record {
        lines = s.lines;
        place = o;
        text = u;
        holds = holds;
        short = s.short;
        at = at;
        is_text = v;
      })

pub if_InOrder : (b : Bool) {x y : Editor} → InOrder x → InOrder y → InOrder (if b then x else y)
if_InOrder true p q = p
if_InOrder false p q = q

module _ (tx : Tx) (e : Editor) (s : InOrder e) where
  repainted : (h : History) → Sound h → InOrder (refresh tx (set_shell e h))
  repainted h k =
      InOrder-frame (set_shell e h) (refresh tx (set_shell e h)) (refresh-frame tx (set_shell e h))
        (record { sound = k; params = s.params })

  pub op_history_prev-InOrder : InOrder (op_history_prev tx e)
  unfolding op_history_prev
  op_history_prev-InOrder =
      let h = e.shell in
      let moves =
        prev_lem (history_size + 1) h s.sound.lines s.sound.place s.sound.holds s.sound.short
          (omega arith) s.sound.at in
      if_InOrder (h.used == 0 || h.nav_on && h.nav == 0) s (
        repainted (recalled (prev (history_size + 1) h) h) (
          Sound-Moves h s.sound (older (length s.sound.lines) s.sound.place)
            (prev (history_size + 1) h) moves))

  pub op_history_next-InOrder : InOrder (op_history_next tx e)
  unfolding op_history_next
  op_history_next-InOrder =
      let h = e.shell in
      let moves =
        next_lem (history_size + 1) h s.sound.lines s.sound.place s.sound.holds s.sound.short
          (omega arith) s.sound.at in
      if_InOrder (not h.nav_on) s (
        repainted (recalled (next (history_size + 1) h) h) (
          Sound-Moves h s.sound (newer (length s.sound.lines) s.sound.place)
            (next (history_size + 1) h) moves))

-- What is asked of the two functions that the editor is given.
pub record Lawful (k : Hooks) : Type 0 where
  pub dispatch-InOrder : (e : Editor) → InOrder e → InOrder (k.dispatch e)
  pub complete-InOrder : (e : Editor) → InOrder e → InOrder (k.complete e)

-- Where nothing but modes and counters changes.
pub touched : (e d : Editor) → d.shell ≡ e.shell → d.esc_np ≤ 2 → InOrder e → InOrder d
touched e d a b s = record { sound = subst Sound (sym a) s.sound; params = b }

module _ (k : Hooks) (l : Lawful k) where
  done :
      (e : Editor) → InOrder e → (d : Editor) (o : Option Text) → Leaves e InOrder d o → InOrder d
  done e s d none p = p
  done e s d (some u) p = InOrder-Turns e d u s p

  edit_submit-InOrder : (e : Editor) → InOrder e → InOrder (edit_submit k e)
  unfolding edit_submit
  edit_submit-InOrder e s =
      let v = s.sound.is_text in
      let h : History = record (e.shell) { cur = e.shell.len } in
      let t : Text = record { chars = s.sound.text.chars; at = length s.sound.text.chars } in
      let to_end : Edited e.shell h t = record {
        text = record {
          string = v.string;
          len_is = v.len_is;
          cur_is = v.len_is;
          within = omega arith;
          room = v.room;
        };
        kept = (refl, refl, refl, refl);
      } in
      l.dispatch-InOrder _ (
        if_InOrder (e.shell.cur == e.shell.len) s (
          InOrder-frame (set_cur e e.shell.len) (reposition k.tx (set_cur e e.shell.len))
            (reposition-frame k.tx (set_cur e e.shell.len))
            (InOrder-Turns e (set_cur e e.shell.len) t s (to_end, refl))))

  control_key-InOrder : (b : ℕ) (e : Editor) → InOrder e → InOrder (control_key k b e)
  control_key-InOrder b e s =
      done e s (control_key k b e) (text_key b e.overwrite e.bs_swap s.sound.text) (
        control_key-Leaves k e s.sound.text s.sound.is_text InOrder
          (op_history_prev-InOrder k.tx e s) (op_history_next-InOrder k.tx e s)
          (l.complete-InOrder e s) b)

  pub normal_key-InOrder : (b : ℕ) (e : Editor) → InOrder e → InOrder (normal_key k b e)
  unfolding normal_key
  normal_key-InOrder b e s =
      let sent = edit_submit-InOrder e s in
      if_InOrder (b == b'\r') (touched (edit_submit k e) _ refl sent.params sent) (
        if_InOrder (b == b'\n') (if_InOrder e.prev_cr (touched e _ refl s.params s) sent)
          (control_key-InOrder b (record e { prev_cr = false }) (touched e _ refl s.params s)))
