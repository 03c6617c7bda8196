-- ===== src/Shell/Edit/Render.antt =====
-- What the line editor draws: escape sequences, the repaint and the cursor moves.
use wio_lite_ai.Base.{
  ℕ, zero, suc, ◌+◌, ◌-◌, ◌/◌, ◌%◌, ◌^◌, ◌&&◌, true, List, [], ◌∷◌, ◌++◌, ◌==◌, ltb, if◌then◌else◌,
  length, codes, Mem,
}
use wio_lite_ai.Shell.Output.{Tx, Console, putc, puts, flush, take_lock}
use wio_lite_ai.Shell.Edit.State.{Editor, edit_cols, sub32}

abbrev pub escape : ℕ
escape = 27

-- CLI_VT100_CLR_LINE, CLI_VT100_CLR_SCREEN and CLI_VT100_CPR_PROBE
abbrev pub clr_line : List ℕ
clr_line = escape ∷ codes "[2K"

abbrev pub clr_screen : List ℕ
clr_screen = (escape ∷ codes "[2J") ++ escape ∷ codes "[H"

abbrev pub cpr_probe : List ℕ
cpr_probe = (escape ∷ codes "[999C") ++ escape ∷ codes "[6n"

-- The digits of `n`, at most `k` of them and the lowest ones, in front of `acc`.
unfoldable pub csi_digits : ℕ → ℕ → List ℕ → List ℕ
csi_digits zero n acc = acc
csi_digits (suc k) n acc =
    let more = csi_digits k (n / 10) ((b'0' + n % 10) ∷ acc) in if n == 0 then acc else more

-- `e_csi_n`
unfoldable pub csi_n : Tx → Console → ℕ → ℕ → Console
unfolding csi_digits
csi_n tx c n final =
    let c' = putc tx (putc tx c escape) b'[' in
    putc tx (puts tx c' (if n == 0 then b'0' ∷ [] else csi_digits 3 n [])) final

-- `n` characters of the line: e_putn(sh->line, n).
unfoldable pub line_bytes : Mem → ℕ → ℕ → List ℕ
line_bytes m p zero = []
line_bytes m p (suc n) = m p ∷ line_bytes m (p + 1) n

-- `for (r = old_rows; r > 1; r--)`
unfoldable pub clear_rows : Tx → ℕ → Console → Console
clear_rows tx zero c = c
clear_rows tx (suc n) c = clear_rows tx n (csi_n tx (puts tx (putc tx c b'\r') clr_line) 1 b'A')

unfoldable pub erase : Tx → Editor → Console → Console
unfolding clear_rows csi_n
erase tx e c =
    if e.old_rows == 0
    then putc tx c b'\r'
    else (let down = sub32 (e.old_rows - 1) e.draw_row in
        let c' = if down == 0 then c else csi_n tx c down b'B' in
        puts tx (putc tx (clear_rows tx (e.old_rows - 1) c') b'\r') clr_line)

-- The prompt and the line, and a newline at an exact width boundary.
unfoldable pub paint_line : Tx → Editor → Console → Console
unfolding line_bytes
paint_line tx e c =
    let pend = length e.prompt + e.shell.len in
    let c' = puts tx (puts tx c e.prompt) (line_bytes e.shell.line 0 e.shell.len) in
    if ltb 0 pend && pend % edit_cols e == 0 then puts tx c' (b'\r' ∷ b'\n' ∷ []) else c'

-- The cursor from the start of a row to its column.
unfoldable pub to_column : Tx → ℕ → Console → Console
unfolding csi_n
to_column tx col c = let c' = putc tx c b'\r' in if col == 0 then c' else csi_n tx c' col b'C'

-- The part of `cli_edit_refresh` under the lock.
unfoldable pub repaint : Tx → Editor → Editor
unfolding erase paint_line to_column csi_n
repaint tx e =
    let cols = edit_cols e in
    let end_row = (length e.prompt + e.shell.len) / cols in
    let pcur = length e.prompt + e.shell.cur in
    let c = paint_line tx e (erase tx e e.console) in
    let c' = if ltb (pcur / cols) end_row then csi_n tx c (end_row - pcur / cols) b'A' else c in
    record e {
      console = flush tx (to_column tx (pcur % cols) c');
      old_rows = (end_row + 1) % 2 ^ 8;
      draw_row = pcur / cols % 2 ^ 8;
    }

-- `cli_lock`, then what is done under the lock, or the flag.
unfoldable pub with_lock : Tx → (Editor → Editor) → Editor → Editor
with_lock tx body e =
    let (ok, c) = take_lock tx e.console in
    if ok
    then body (record e { console = c })
    else record e { console = record c { tx_failed = true } }

-- `cli_edit_refresh`, and `cli_edit_redraw`
unfoldable pub refresh : Tx → Editor → Editor
refresh tx e = with_lock tx (repaint tx) e

unfoldable pub move_cursor : Tx → Editor → Editor
unfolding to_column csi_n
move_cursor tx e =
    let cols = edit_cols e in
    let pcur = length e.prompt + e.shell.cur in
    let row = pcur / cols in
    let c = e.console in
    let c' =
      if ltb row e.draw_row
      then csi_n tx c (e.draw_row - row) b'A'
      else if ltb e.draw_row row
      then csi_n tx c (row - e.draw_row) b'B'
      else c in
    record e { console = flush tx (to_column tx (pcur % cols) c'); draw_row = row % 2 ^ 8 }

-- `edit_reposition`
unfoldable pub reposition : Tx → Editor → Editor
reposition tx e = with_lock tx (move_cursor tx) e
