-- ===== src/Shell/Edit/Keys.antt =====
-- The bytes that the editor receives: `cli_input_byte` and the final bytes of escape sequences.
use wio_lite_ai.Base.{
  ℕ, ◌+◌, ◌-◌, ◌*◌, ◌/◌, ◌%◌, ◌^◌, ◌&&◌, ◌||◌, not, true, false, [], ◌∷◌, ◌++◌, ◌==◌, leb, ltb,
  if◌then◌else◌, length, codes, store,
}
use wio_lite_ai.Shell.Output.{Tx}
use wio_lite_ai.Shell.Number.{between}
use wio_lite_ai.Shell.Edit.State.{Editor, Rx, normal, esc, csi, ss3, edit_cols}
use wio_lite_ai.Shell.Edit.Render.{refresh}
use wio_lite_ai.Shell.Edit.Ops.{
  Hooks, say, op_insert, op_backspace, op_delete_fwd, op_kill_eol, op_kill_bol, op_del_word,
  op_left, op_right, op_home, op_end, op_word_left, op_word_right, op_clear_screen, op_history_prev,
  op_history_next, edit_submit,
}

-- `ESC [ <n> ~`
unfoldable pub keypad : Tx → ℕ → Editor → Editor
keypad tx n e =
    if n == 1 || n == 7
    then op_home tx e
    else if n == 4 || n == 8
    then op_end tx e
    else if n == 2
    then record e { overwrite = not e.overwrite }
    else if n == 3
    then op_delete_fwd tx e
    else e

-- `ESC [ <r> ; <c> R`
unfoldable pub width_reply : Tx → Editor → Editor
width_reply tx e =
    if e.probing_cpr && not e.esc_bad && e.esc_np == 2 && leb 20 e.esc_p1 && leb e.esc_p1 255
    then (let w = e.esc_p1 % 2 ^ 8 in
        let e' = record e { probing_cpr = false } in
        if w == e.term_width then e' else refresh tx (record e' { term_width = w }))
    else e

-- The keys that CSI and SS3 sequences share.
unfoldable pub ss3_final : Tx → ℕ → Editor → Editor
ss3_final tx f e =
    if f == b'A'
    then op_history_prev tx e
    else if f == b'B'
    then op_history_next tx e
    else if f == b'C'
    then op_right tx e
    else if f == b'D'
    then op_left tx e
    else if f == b'H'
    then op_home tx e
    else if f == b'F'
    then op_end tx e
    else e

unfoldable pub csi_final : Tx → ℕ → Editor → Editor
unfolding keypad width_reply ss3_final
csi_final tx f e =
    if f == b'~'
    then keypad tx (if leb 1 e.esc_np then e.esc_p0 else 0) e
    else if f == b'R'
    then width_reply tx e
    else ss3_final tx f e

-- Ctrl+C
unfoldable pub cancel_line : Tx → Editor → Editor
unfolding say
cancel_line tx e =
    let c = record (e.console) { tx_failed = false } in
    let e' =
      say tx (codes "^C" ++ b'\r' ∷ b'\n' ∷ [])
        (record e { rx = normal; prev_cr = false; console = c }) in
    say tx e.prompt (record e' {
      shell = record (e'.shell) {
        len = 0;
        cur = 0;
        line = store e'.shell.line 0 0;
        nav_on = false;
      };
      old_rows = (length e.prompt / edit_cols e + 1) % 2 ^ 8;
      draw_row = 0;
    })

-- The states of an escape sequence.
unfoldable pub after_esc : Tx → ℕ → Editor → Editor
after_esc tx b e =
    if b == b'['
    then record e { rx = csi; esc_np = 0; esc_bad = false; esc_p0 = 0; esc_p1 = 0 }
    else if b == b'O'
    then record e { rx = ss3 }
    else if b == b'b'
    then op_word_left tx (record e { rx = normal })
    else if b == b'f'
    then op_word_right tx (record e { rx = normal })
    else record e { rx = normal }

-- A digit of a parameter: `esc_p[esc_np - 1]` once there is one.
unfoldable pub csi_digit : ℕ → Editor → Editor
csi_digit d e =
    let np = if e.esc_np == 0 then 1 else e.esc_np in
    if np == 1
    then record e { esc_np = np; esc_p0 = (e.esc_p0 * 10 + d) % 2 ^ 16 }
    else record e { esc_np = np; esc_p1 = (e.esc_p1 * 10 + d) % 2 ^ 16 }

unfoldable pub in_csi : Tx → ℕ → Editor → Editor
unfolding csi_digit csi_final
in_csi tx b e =
    if between b'0' b'9' b
    then csi_digit (b - b'0') e
    else if b == b';'
    then (if ltb e.esc_np 2
        then record e { esc_np = e.esc_np + 1 }
        else record e { esc_bad = true })
    else if between 64 126 b
    then csi_final tx b (record e { rx = normal })
    else record e { rx = normal }

unfoldable pub in_ss3 : Tx → ℕ → Editor → Editor
unfolding ss3_final
in_ss3 tx b e =
    let e' = record e { rx = normal } in if between 64 126 b then ss3_final tx b e' else e'

-- The control bytes, and what is printed.
unfoldable pub control_key : Hooks → ℕ → Editor → Editor
control_key k b e =
    let tx = k.tx in
    if b == 0x1B
    then record e { rx = esc }
    else if b == 0x01
    then op_home tx e
    else if b == 0x02
    then op_left tx e
    else if b == 0x04
    then op_delete_fwd tx e
    else if b == 0x05
    then op_end tx e
    else if b == 0x06
    then op_right tx e
    else if b == 0x0B
    then op_kill_eol tx e
    else if b == 0x0C
    then op_clear_screen tx e
    else if b == 0x0E
    then op_history_next tx e
    else if b == 0x10
    then op_history_prev tx e
    else if b == 0x15
    then op_kill_bol tx e
    else if b == 0x17
    then op_del_word tx e
    else if b == 0x09
    then k.complete e
    else if b == 0x08
    then op_backspace tx e
    else if b == 0x7F
    then (if e.bs_swap then op_delete_fwd tx e else op_backspace tx e)
    else if between 0x20 0x7E b
    then op_insert tx b e
    else e

-- CLI_RX_NORMAL, the line endings first.
unfoldable pub normal_key : Hooks → ℕ → Editor → Editor
unfolding edit_submit control_key
normal_key k b e =
    if b == b'\r'
    then record (edit_submit k e) { prev_cr = true }
    else if b == b'\n'
    then (if e.prev_cr then record e { prev_cr = false } else edit_submit k e)
    else control_key k b (record e { prev_cr = false })

unfoldable pub by_state : Hooks → Rx → ℕ → Editor → Editor
unfolding after_esc in_csi in_ss3 normal_key
by_state k esc b e = after_esc k.tx b e
by_state k csi b e = in_csi k.tx b e
by_state k ss3 b e = in_ss3 k.tx b e
by_state k normal b e = normal_key k b e

-- The part behind the repaint and the ASCII filter.
unfoldable pub ascii_byte : Hooks → ℕ → Editor → Editor
unfolding cancel_line by_state
ascii_byte k b e =
    let e' = if b == 0x09 then e else record e { tab_list_armed = false } in
    if b == 0x03 then cancel_line k.tx e' else by_state k e'.rx b e'

-- `cli_input_byte`
unfoldable pub input_byte : Hooks → ℕ → Editor → Editor
unfolding ascii_byte
input_byte k b e =
    let e' = if e.render_dirty then refresh k.tx (record e { render_dirty = false }) else e in
    if leb 0x80 b then e' else ascii_byte k b e'
