-- ===== src/Shell/Edit/Always.antt =====
-- Every byte, in every state of the machine, leaves the editor in order.
use wio_lite_ai.Base.{
  ℕ, ◌+◌, ◌-◌, ◌%◌, ◌^◌, ◌≤◌, ◌≡◌, ◌⊎◌, ap, refl, arith, true, false, ◌||◌, Bool-cases, inl, inr,
  none, [], leb, ltb, ◌==◌, if◌then◌else◌,
}
use wio_lite_ai.Shell.Number.{between}
use wio_lite_ai.Shell.Output.{Tx}
use wio_lite_ai.Shell.Edit.State.{Editor, Rx, normal, esc, csi, ss3}
use wio_lite_ai.Shell.Edit.Render.{refresh}
use wio_lite_ai.Shell.Edit.Ops.{Hooks, say, op_home, op_end, op_delete_fwd}
use wio_lite_ai.Shell.Edit.Keys.{
  keypad, width_reply, ss3_final, csi_final, cancel_line, after_esc, csi_digit, in_csi, in_ss3,
  by_state, ascii_byte, input_byte,
}
use wio_lite_ai.Shell.Edit.Text.{Text, IsText}
use wio_lite_ai.Shell.Edit.Refine.{
  Turns, refresh-frame, op_home-Turns, op_end-Turns, op_left-Turns, op_right-Turns,
  op_delete_fwd-Turns, op_word_left-Turns, op_word_right-Turns,
}
use wio_lite_ai.Shell.Edit.Invariant.{
  InOrder, Lawful, touched, if_InOrder, InOrder-Turns, InOrder-frame, op_history_prev-InOrder,
  op_history_next-InOrder, normal_key-InOrder,
}

module _ (tx : Tx) (e : Editor) (s : InOrder e) where
  does : (d : Editor) (u : Text) → Turns e d u → InOrder d
  does d u k = InOrder-Turns e d u s k

  home : InOrder (op_home tx e)
  home = does _ _ (op_home-Turns tx e s.sound.text s.sound.is_text)

  end : InOrder (op_end tx e)
  end = does _ _ (op_end-Turns tx e s.sound.text s.sound.is_text)

  delete_fwd : InOrder (op_delete_fwd tx e)
  delete_fwd = does _ _ (op_delete_fwd-Turns tx e s.sound.text s.sound.is_text)

  keypad-InOrder : (n : ℕ) → InOrder (keypad tx n e)
  unfolding keypad
  keypad-InOrder n = if_InOrder (n == 1 || n == 7) home (
      if_InOrder (n == 4 || n == 8) end
        (if_InOrder (n == 2) (touched e _ refl s.params s) (if_InOrder (n == 3) delete_fwd s)))

  width_reply-InOrder : InOrder (width_reply tx e)
  unfolding width_reply
  width_reply-InOrder =
      let d = record e { probing_cpr = false; term_width = e.esc_p1 % 2 ^ 8 } in
      if_InOrder _
        (if_InOrder _ (touched e _ refl s.params s)
          (InOrder-frame d (refresh tx d) (refresh-frame tx d) (touched e d refl s.params s)))
        s

  ss3_final-InOrder : (f : ℕ) → InOrder (ss3_final tx f e)
  unfolding ss3_final
  ss3_final-InOrder f = if_InOrder (f == b'A') (op_history_prev-InOrder tx e s) (
      if_InOrder (f == b'B') (op_history_next-InOrder tx e s) (
        if_InOrder (f == b'C') (does _ _ (op_right-Turns tx e s.sound.text s.sound.is_text)) (
          if_InOrder (f == b'D') (does _ _ (op_left-Turns tx e s.sound.text s.sound.is_text))
            (if_InOrder (f == b'H') home (if_InOrder (f == b'F') end s)))))

  csi_final-InOrder : (f : ℕ) → InOrder (csi_final tx f e)
  unfolding csi_final
  csi_final-InOrder f =
      if_InOrder (f == b'~') (keypad-InOrder (if leb 1 e.esc_np then e.esc_p0 else 0))
        (if_InOrder (f == b'R') width_reply-InOrder (ss3_final-InOrder f))

  cancel_line-InOrder : InOrder (cancel_line tx e)
  unfolding cancel_line say
  cancel_line-InOrder = record {
    sound = record {
      lines = s.sound.lines;
      place = none;
      text = record { chars = []; at = 0 };
      holds = record { packed = s.sound.holds.packed; fits = s.sound.holds.fits };
      short = s.sound.short;
      at = refl;
      is_text = record {
        string = refl;
        len_is = refl;
        cur_is = refl;
        within = omega arith;
        room = omega arith;
      };
    };
    params = s.params;
  }

  csi_digit-InOrder : (d : ℕ) → InOrder (csi_digit d e)
  unfolding csi_digit
  csi_digit-InOrder d = if_InOrder _ (touched e _ refl one s) (touched e _ refl one s)
    where
      one : (if e.esc_np == 0 then 1 else e.esc_np) ≤ 2
      one = ground (arith, s.params)

module _ (tx : Tx) (b : ℕ) (e : Editor) (s : InOrder e) where
  in_csi-InOrder : InOrder (in_csi tx b e)
  unfolding in_csi
  in_csi-InOrder = if_InOrder (between b'0' b'9' b) (csi_digit-InOrder tx e s (b - b'0')) (
      if_InOrder (b == b';') (separator (Bool-cases (ltb e.esc_np 2))) (
        if_InOrder (between 64 126 b) (csi_final-InOrder tx _ (touched e _ refl s.params s) b)
          (touched e _ refl s.params s)))
    where
      separator :
          (ltb e.esc_np 2 ≡ true) ⊎ (ltb e.esc_np 2 ≡ false)
          → InOrder (
              if ltb e.esc_np 2
              then record e { esc_np = e.esc_np + 1 }
              else record e { esc_bad = true })
      separator (inl y) =
          rw y (touched e (record e { esc_np = e.esc_np + 1 }) refl (ground (arith, y)) s)
      separator (inr n) = rw n (touched e (record e { esc_bad = true }) refl s.params s)

  in_ss3-InOrder : InOrder (in_ss3 tx b e)
  unfolding in_ss3
  in_ss3-InOrder =
      let s' = touched e (record e { rx = normal }) refl s.params s in
      if_InOrder (between 64 126 b) (ss3_final-InOrder tx _ s' b) s'

  after_esc-InOrder : InOrder (after_esc tx b e)
  unfolding after_esc
  after_esc-InOrder =
      let e' = record e { rx = normal } in
      let s' = touched e e' refl s.params s in
      if_InOrder (b == b'[') (touched e _ refl (omega arith) s) (
        if_InOrder (b == b'O') (touched e _ refl s.params s) (
          if_InOrder (b == b'b')
            (InOrder-Turns e' _ _ s' (op_word_left-Turns tx e' s.sound.text s.sound.is_text))
            (if_InOrder (b == b'f')
              (InOrder-Turns e' _ _ s' (op_word_right-Turns tx e' s.sound.text s.sound.is_text))
              s')))

by_state-InOrder :
    (k : Hooks) → Lawful k → (r : Rx) (b : ℕ) (e : Editor) → InOrder e → InOrder (by_state k r b e)
unfolding by_state
by_state-InOrder k l esc b e s = after_esc-InOrder k.tx b e s
by_state-InOrder k l csi b e s = in_csi-InOrder k.tx b e s
by_state-InOrder k l ss3 b e s = in_ss3-InOrder k.tx b e s
by_state-InOrder k l normal b e s = normal_key-InOrder k l b e s

ascii_byte-InOrder :
    (k : Hooks) → Lawful k → (b : ℕ) (e : Editor) → InOrder e → InOrder (ascii_byte k b e)
unfolding ascii_byte
ascii_byte-InOrder k l b e s =
    let e' = if b == 0x09 then e else record e { tab_list_armed = false } in
    let s' : InOrder e' = if_InOrder (b == 0x09) s (touched e _ refl s.params s) in
    if_InOrder (b == 0x03) (cancel_line-InOrder k.tx e' s') (by_state-InOrder k l e'.rx b e' s')

-- Where dispatch and completion leave an editor in order, `cli_input_byte` does, for every byte
-- and in every state: the line is a string that fits with its NUL, `len` is its length and the cursor
-- is in it; the history holds lines that fit the line buffer, and the line that it is at is one of
-- them; an escape sequence has at most two parameters, which is the room for them.
pub input_byte-InOrder :
    (k : Hooks) → Lawful k → (b : ℕ) (e : Editor) → InOrder e → InOrder (input_byte k b e)
unfolding input_byte
input_byte-InOrder k l b e s =
    let e' = if e.render_dirty then refresh k.tx (record e { render_dirty = false }) else e in
    let s' : InOrder e' =
      if_InOrder e.render_dirty
        (InOrder-frame (record e { render_dirty = false }) _
          (refresh-frame k.tx (record e { render_dirty = false })) (touched e _ refl s.params s))
        s in
    if_InOrder (leb 0x80 b) s' (ascii_byte-InOrder k l b e' s')

abbrev pub Cancelled : Editor → Editor → Type 0
Cancelled e d =
    (d.rx ≡ normal)
    × (d.prev_cr ≡ false)
    × IsText d.shell (record { chars = []; at = 0 })
    × (d.shell.nav_on ≡ false)
    × (d.shell.hist ≡ e.shell.hist)
    × (d.shell.used ≡ e.shell.used)

cancel_line-Cancelled :
    (tx : Tx) (e d : Editor) → d.shell ≡ e.shell → Cancelled e (cancel_line tx d)
unfolding cancel_line say
cancel_line-Cancelled tx e d s = (
  refl,
  refl,
  record { string = refl; len_is = refl; cur_is = refl; within = omega arith; room = omega arith },
  refl,
  ap (λ h. h.hist) s,
  ap (λ h. h.used) s,
)

-- Ctrl+C, in every state of the machine and whatever the line, the cursor and the bytes that can be
-- sent, leads to the state between two sequences, with an empty line that is a string, the cursor at
-- its start, and no line of the history recalled; the history stays as it was.
pub input_byte-cancel : (k : Hooks) (e : Editor) → Cancelled e (input_byte k 0x03 e)
unfolding input_byte ascii_byte
input_byte-cancel k e =
    cancel_line-Cancelled k.tx e
      (record (if e.render_dirty then refresh k.tx (record e { render_dirty = false }) else e) {
        tab_list_armed = false;
      })
      (repainted (Bool-cases e.render_dirty))
  where
    repainted :
        (e.render_dirty ≡ true) ⊎ (e.render_dirty ≡ false)
        → (if e.render_dirty then refresh k.tx (record e { render_dirty = false }) else e).shell
          ≡ e.shell
    repainted (inl y) =
        rw y (ap (λ f. f.0) (refresh-frame k.tx (record e { render_dirty = false })))
    repainted (inr n) = rw n refl
