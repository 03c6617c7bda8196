-- ===== src/Shell/Complete/Tests.antt =====
-- cli_complete.c on the line "sd i" and the commands "sd info", "sd write" and "sdcard"; nothing is
-- sent.
use wio_lite_ai.Base.{◌≡◌, refl, arith, false, none, some, [], ◌∷◌, Mem, write, codes}
use wio_lite_ai.Shell.Parse.Tree.{cmd, null, set, Cmds, nil, entry}
use wio_lite_ai.Shell.Parse.Paths.{CmdsOk}
use wio_lite_ai.Shell.Output.{Tx}
use wio_lite_ai.Shell.Edit.State.{Editor, normal}
use wio_lite_ai.Shell.Edit.Text.{Text, IsText}
use wio_lite_ai.Shell.Edit.Refine.{Turns}
use wio_lite_ai.Shell.Complete.{
  tab_complete, scan_candidates, scan_loop, matching, starts_with, agree, resolve_set, resolve_loop,
  next_ro_token, run_of, level_match, level_names, ro_match_root, same_bytes, sub_names,
  complete_word_start, back_to_blank,
}
use wio_lite_ai.Shell.Complete.Scan.{IsScan, scan_candidates_lem}
use wio_lite_ai.Shell.Complete.Order.{completed, scanned, tab_complete_lem}

abbrev tree : Cmds
tree =
    entry
      (cmd (some (codes "sd"))
        (set (
          entry (cmd (some (codes "info")) null (some 1) 1 0)
            (entry (cmd (some (codes "write")) null (some 2) 2 0) nil)))
        none 1 0)
      (entry (cmd (some (codes "sdcard")) null (some 3) 1 0) nil)

tree-CmdsOk : CmdsOk tree
tree-CmdsOk = ground arith

abbrev line : Mem
line = write (λ q. 0) 0 (codes "sd i")

abbrev typing : Editor
typing = record {
  shell = record {
    hist = λ q. 0;
    used = 0;
    nav_on = false;
    nav = 0;
    line = line;
    len = 4;
    cur = 4;
  };
  console = record { staged = []; tx_failed = false; sent = []; asked = 0 };
  overwrite = false;
  rx = normal;
  prev_cr = false;
  esc_p0 = 0;
  esc_p1 = 0;
  esc_np = 0;
  esc_bad = false;
  bs_swap = false;
  term_width = 80;
  old_rows = 1;
  draw_row = 0;
  probing_cpr = false;
  tab_list_armed = false;
  render_dirty = false;
  prompt = codes "> ";
}

abbrev mute : Tx
mute = record { lock_ok = λ n. false; send_ok = λ n bs. false }

abbrev shown : Text
shown = record { chars = codes "sd i"; at = 4 }

typing-IsText : IsText typing.shell shown
typing-IsText = record {
  string = omega arith;
  len_is = refl;
  cur_is = refl;
  within = omega arith;
  room = omega arith;
}

-- The line becomes "sd info ".
completed_line :
    completed (scanned line 3 1 (resolve_set line tree 3)) shown
    ≡ record { chars = codes "sd info "; at = 8 }
unfolding resolve_set resolve_loop next_ro_token run_of level_match level_names ro_match_root
    same_bytes sub_names scan_candidates scan_loop starts_with agree
completed_line = refl

scan_candidates_lem_example :
    IsScan 2
      (scan_candidates line 0 2 (codes "sd" ∷ codes "sdcard" ∷ []))
      (matching line 0 2 (codes "sd" ∷ codes "sdcard" ∷ []))
scan_candidates_lem_example = scan_candidates_lem line 0 2 (codes "sd" ∷ codes "sdcard" ∷ [])

tab_complete_lem_example :
    Turns typing
      (tab_complete mute tree typing)
      (completed (scanned line 3 1 (resolve_set line tree 3)) shown)
unfolding complete_word_start back_to_blank
tab_complete_lem_example = tab_complete_lem mute tree typing shown tree-CmdsOk typing-IsText
