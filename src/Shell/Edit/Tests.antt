-- ===== src/Shell/Edit/Tests.antt =====
-- cli_edit.c on the line "ls -l", the cursor behind "ls ", and an empty history; nothing is sent.
use wio_lite_ai.Base.{◌≡◌, refl, arith, true, false, none, some, [], Mem, write, codes}
use wio_lite_ai.Shell.Edit.State.{Editor, normal}
use wio_lite_ai.Shell.Edit.Ops.{Hooks}
use wio_lite_ai.Shell.Edit.Keys.{input_byte}
use wio_lite_ai.Shell.Edit.Text.{Text, IsText}
use wio_lite_ai.Shell.Edit.Keymap.{edit_key}
use wio_lite_ai.Shell.Edit.Refine.{Turns}
use wio_lite_ai.Shell.Edit.Machine.{input_byte_lem}
use wio_lite_ai.Shell.Edit.Invariant.{InOrder, Lawful}
use wio_lite_ai.Shell.Edit.Always.{Cancelled, input_byte-InOrder, input_byte-cancel}

abbrev zeros : Mem
zeros q = 0

abbrev hooks : Hooks
hooks = record {
  tx = record { lock_ok = λ n. true; send_ok = λ n bs. false };
  dispatch = λ e. e;
  complete = λ e. e;
}

abbrev typing : Editor
typing = record {
  shell = record {
    hist = zeros;
    used = 0;
    nav_on = false;
    nav = 0;
    line = write zeros 0 (codes "ls -l");
    len = 5;
    cur = 3;
  };
  console = record { staged = []; tx_failed = false; sent = []; asked = 0 };
  overwrite = false;
  rx = normal;
  prev_cr = false;
  esc_p0 = 0;
  esc_p1 = 0;
  esc_np = 0;
  esc_bad = false;
  bs_swap = false;
  term_width = 80;
  old_rows = 1;
  draw_row = 0;
  probing_cpr = false;
  tab_list_armed = false;
  render_dirty = true;
  prompt = codes "> ";
}

abbrev shown : Text
shown = record { chars = codes "ls -l"; at = 3 }

typing-IsText : IsText typing.shell shown
typing-IsText = record {
  string = omega arith;
  len_is = refl;
  cur_is = refl;
  within = omega arith;
  room = omega arith;
}

kill_word_end : edit_key 0x17 false false shown ≡ some (record { chars = codes "-l"; at = 0 })
unfolding edit_key
kill_word_end = refl

input_byte_lem_example :
    Turns typing (input_byte hooks 0x17 typing) (record { chars = codes "-l"; at = 0 })
input_byte_lem_example =
    input_byte_lem hooks 0x17 typing shown (record { chars = codes "-l"; at = 0 }) refl
      typing-IsText kill_word_end

typing-InOrder : InOrder typing
typing-InOrder = record {
  sound = record {
    lines = [];
    place = none;
    text = shown;
    holds = record { packed = refl; fits = omega arith };
    short = tt;
    at = refl;
    is_text = typing-IsText;
  };
  params = omega arith;
}

hooks-Lawful : Lawful hooks
hooks-Lawful = record { dispatch-InOrder = λ e s. s; complete-InOrder = λ e s. s }

input_byte-InOrder_example : InOrder (input_byte hooks 0x7F typing)
input_byte-InOrder_example = input_byte-InOrder hooks hooks-Lawful 0x7F typing typing-InOrder

input_byte-cancel_example : Cancelled typing (input_byte hooks 0x03 typing)
input_byte-cancel_example = input_byte-cancel hooks typing
