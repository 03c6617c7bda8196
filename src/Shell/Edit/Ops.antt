-- ===== src/Shell/Edit/Ops.antt =====
-- The operations of the line editor. What a submitted line and a Tab do is in other files of
-- shell/core (cli_session.c, cli_complete.c): two functions that the editor is given, in `Hooks`.
use wio_lite_ai.Base.{
  ℕ, ◌+◌, ◌-◌, ◌%◌, ◌^◌, ◌&&◌, ◌||◌, not, Bool, true, false, Option, none, some, List, [], ◌∷◌,
  ◌==◌, leb, ltb, if◌then◌else◌, length,
}
use wio_lite_ai.Shell.History.{History, history_size, line_size, prev, next}
use wio_lite_ai.Shell.Output.{Tx, puts, flush, write_bytes}
use wio_lite_ai.Shell.Edit.State.{Editor, edit_cols}
use wio_lite_ai.Shell.Edit.Render.{refresh, reposition, with_lock, clr_screen, cpr_probe}
use wio_lite_ai.Shell.Edit.Buffer.{
  overwrite_char, append_char, insert_char, erase_before, erase_last, erase_at, cut_tail, cut_head,
  cut_word, word_start, word_end,
}

pub record Hooks : Type 0 where
  pub tx : Tx
  pub dispatch : Editor → Editor
  pub complete : Editor → Editor

abbrev pub set_shell : Editor → History → Editor
set_shell e h = record e { shell = h }

abbrev pub set_cur : Editor → ℕ → Editor
set_cur e n = record e { shell = record (e.shell) { cur = n } }

-- `cli_write`, its result ignored.
unfoldable pub say : Tx → List ℕ → Editor → Editor
say tx bs e = record e { console = (write_bytes tx e.console bs).1 }

-- `fast_append`
unfoldable pub fast_append : Tx → ℕ → Editor → Bool × Editor
unfolding say append_char
fast_append tx c e =
    if not (e.shell.cur == e.shell.len) || (length e.prompt + e.shell.len + 1) % edit_cols e == 0
    then (false, e)
    else (true, say tx (c ∷ []) (set_shell e (append_char c e.shell)))

-- `fast_backspace`
unfoldable pub fast_backspace : Tx → Editor → Bool × Editor
unfolding say erase_last
fast_backspace tx e =
    if not (e.shell.cur == e.shell.len)
      || e.shell.len == 0
      || (length e.prompt + e.shell.len) % edit_cols e == 0
    then (false, e)
    else (true, say tx (8 ∷ b' ' ∷ 8 ∷ []) (set_shell e (erase_last e.shell)))

unfoldable pub op_insert : Tx → ℕ → Editor → Editor
unfolding fast_append overwrite_char append_char insert_char say
op_insert tx c e =
    let h = e.shell in
    if e.overwrite && ltb h.cur h.len
    then refresh tx (set_shell e (overwrite_char c h))
    else if leb (line_size - 1) h.len
    then say tx (7 ∷ []) e
    else if h.cur == h.len
    then (let (done, e') = fast_append tx c e in
        if done then e' else refresh tx (set_shell e (append_char c h)))
    else refresh tx (set_shell e (insert_char c h))

unfoldable pub op_backspace : Tx → Editor → Editor
unfolding fast_backspace erase_before
op_backspace tx e =
    let (done, e') = fast_backspace tx e in
    if e.shell.cur == 0
    then e
    else if done
    then e'
    else refresh tx (set_shell e (erase_before e.shell))

unfoldable pub op_delete_fwd : Tx → Editor → Editor
unfolding erase_at
op_delete_fwd tx e =
    if leb e.shell.len e.shell.cur then e else refresh tx (set_shell e (erase_at e.shell))

unfoldable pub op_kill_eol : Tx → Editor → Editor
unfolding cut_tail
op_kill_eol tx e =
    if leb e.shell.len e.shell.cur then e else refresh tx (set_shell e (cut_tail e.shell))

unfoldable pub op_kill_bol : Tx → Editor → Editor
unfolding cut_head
op_kill_bol tx e = if e.shell.cur == 0 then e else refresh tx (set_shell e (cut_head e.shell))

unfoldable pub op_del_word : Tx → Editor → Editor
unfolding cut_word word_start
op_del_word tx e =
    if e.shell.cur == 0
    then e
    else refresh tx (set_shell e (cut_word (word_start e.shell e.shell.cur) e.shell))

unfoldable pub op_left : Tx → Editor → Editor
op_left tx e =
    if ltb 0 e.shell.cur then reposition tx (set_cur e ((e.shell.cur + 2 ^ 16 - 1) % 2 ^ 16)) else e

unfoldable pub op_right : Tx → Editor → Editor
op_right tx e =
    if ltb e.shell.cur e.shell.len
    then reposition tx (set_cur e ((e.shell.cur + 1) % 2 ^ 16))
    else e

unfoldable pub op_home : Tx → Editor → Editor
op_home tx e = if ltb 0 e.shell.cur then reposition tx (set_cur e 0) else e

unfoldable pub op_end : Tx → Editor → Editor
op_end tx e = if ltb e.shell.cur e.shell.len then reposition tx (set_cur e e.shell.len) else e

-- The cursor goes to `i` if it is not there: the end of `op_word_left` and `op_word_right`.
unfoldable pub go_to : Tx → ℕ → Editor → Editor
go_to tx i e = if i == e.shell.cur then e else reposition tx (set_cur e (i % 2 ^ 16))

unfoldable pub op_word_left : Tx → Editor → Editor
unfolding go_to word_start
op_word_left tx e = go_to tx (word_start e.shell e.shell.cur) e

unfoldable pub op_word_right : Tx → Editor → Editor
unfolding go_to word_end
op_word_right tx e = go_to tx (word_end e.shell e.shell.cur) e

-- What is put under the lock, and flushed.
unfoldable pub put_all : Tx → List ℕ → Editor → Editor
put_all tx bs e = record e { console = flush tx (puts tx e.console bs) }

unfoldable pub op_clear_screen : Tx → Editor → Editor
unfolding put_all with_lock
op_clear_screen tx e =
    let e' = with_lock tx (put_all tx clr_screen) e in
    refresh tx (record e' { old_rows = 0; draw_row = 0 })

-- `cli_history_prev` and `cli_history_next` with the repaint. Their fuel is more than the buffer.
abbrev pub recalled : Option History → History → History
recalled none h = h
recalled (some g) h = g

unfoldable pub op_history_prev : Tx → Editor → Editor
op_history_prev tx e =
    let h = e.shell in
    if h.used == 0 || h.nav_on && h.nav == 0
    then e
    else refresh tx (set_shell e (recalled (prev (history_size + 1) h) h))

unfoldable pub op_history_next : Tx → Editor → Editor
op_history_next tx e =
    let h = e.shell in
    if not h.nav_on then e else refresh tx (set_shell e (recalled (next (history_size + 1) h) h))

-- `edit_submit`
unfoldable pub edit_submit : Hooks → Editor → Editor
edit_submit k e =
    k.dispatch (if e.shell.cur == e.shell.len then e else reposition k.tx (set_cur e e.shell.len))

-- `cli_edit_session_start`
unfoldable pub session_start : Tx → Editor → Editor
unfolding put_all with_lock
session_start tx e =
    let e' = with_lock tx (put_all tx cpr_probe) (record e { probing_cpr = true }) in
    refresh tx (set_cur (record e' { old_rows = 0; draw_row = 0 }) 0)

-- `cli_set_backspace_mode`
unfoldable pub set_backspace_mode : Bool → Editor → Editor
set_backspace_mode mode e = record e { bs_swap = mode }
