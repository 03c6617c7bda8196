-- ===== src/Shell/Edit/State.antt =====
-- What the line editor keeps of `struct cli_instance`. The line, the cursor and the history are in
-- `shell`; the output is `console`. A flag in a uint8_t is a Bool, and the prompt is the list of its
-- bytes.
use wio_lite_ai.Base.{ℕ, ◌+◌, ◌-◌, ◌%◌, ◌^◌, Bool, List, ◌==◌, if◌then◌else◌}
use wio_lite_ai.Shell.History.{History}
use wio_lite_ai.Shell.Output.{Console}

-- `enum cli_rx_state`
pub data Rx : Type 0 where
  normal esc csi ss3 : Rx

pub record Editor : Type 0 where
  pub shell : History
  pub console : Console
  pub overwrite : Bool
  pub rx : Rx
  pub prev_cr : Bool
  pub esc_p0 : ℕ
  pub esc_p1 : ℕ
  pub esc_np : ℕ
  pub esc_bad : Bool
  pub bs_swap : Bool
  pub term_width : ℕ
  pub old_rows : ℕ
  pub draw_row : ℕ
  pub probing_cpr : Bool
  pub tab_list_armed : Bool
  pub render_dirty : Bool
  pub prompt : List ℕ

-- CLI_TERM_WIDTH
abbrev pub default_width : ℕ
default_width = 80

-- `edit_cols`
unfoldable pub edit_cols : Editor → ℕ
edit_cols e = if e.term_width == 0 then default_width else e.term_width

-- The difference of two `unsigned`s.
abbrev pub sub32 : ℕ → ℕ → ℕ
sub32 a b = (a + 2 ^ 32 - b) % 2 ^ 32
