-- ===== src/Shell/Print.antt =====
-- The formatted output of shell/core/cli_printf.c, for an interactive instance, with CLI_USE_COLOR
-- at its default, 1: a call goes through the formatter into the staging buffer of Shell.Output.
-- The instance's colour strings, and the arguments, are lists of bytes as in Fmt.
pub mod Whole
mod Tests
use wio_lite_ai.Base.{
  ℕ, zero, suc, ◌+◌, ◌-◌, ◌*◌, ◌%◌, ◌^◌, Bool, true, false, not, Option, none, some, List, [], ◌∷◌,
  ◌++◌, ◌==◌, leb, ltb, if◌then◌else◌, length, codes, take, drop, get_or,
}
use wio_lite_ai.Shell.Number.{between}
use wio_lite_ai.Shell.Output.{Tx, Console, putc, puts, flush, out_begin}
use wio_lite_ai.Shell.Edit.Render.{escape}
use wio_lite_ai.Fmt.{Arg, Outcome, done, undefined_argument, out_of_fuel, vformat, fmt_padded, utoa}

-- CLI_VT100_RED, _YELLOW, _GREEN and _RESET
abbrev pub red : List ℕ
red = escape ∷ codes "[31m"

abbrev pub yellow : List ℕ
yellow = escape ∷ codes "[33m"

abbrev pub green : List ℕ
green = escape ∷ codes "[32m"

abbrev pub reset : List ℕ
reset = escape ∷ codes "[0m"

-- `if (color[0]) out_str(sh, s)`
unfoldable pub if_colored : Tx → List ℕ → List ℕ → Console → Console
if_colored tx [] s c = c
if_colored tx (x ∷ color) s c = puts tx c s

-- The flush at the end of a call, and whether nothing has failed.
unfoldable pub finish : Tx → Console → Bool × Console
finish tx c = let d = flush tx c in (not d.tx_failed, d)

unfoldable pub emitted : Tx → List ℕ → Outcome Console → Outcome (Bool × Console)
unfolding if_colored finish
emitted tx color (done c) = done (finish tx (if_colored tx color reset c))
emitted tx color undefined_argument = undefined_argument
emitted tx color out_of_fuel = out_of_fuel

-- `vemit`; the result is true for 0.
unfoldable pub vemit : ℕ → Tx → List ℕ → List ℕ → List Arg → Console → Outcome (Bool × Console)
unfolding if_colored emitted
vemit f tx color fmt args c =
    let (ok, c') = out_begin tx c in
    let out = emitted tx color (vformat (putc tx) f fmt args (if_colored tx color color c')) in
    if ok then out else done (false, c')

unfoldable pub cli_print : ℕ → Tx → List ℕ → List Arg → Console → Outcome (Bool × Console)
unfolding vemit
cli_print f tx fmt args c = vemit f tx [] fmt args c

unfoldable pub cli_error : ℕ → Tx → List ℕ → List Arg → Console → Outcome (Bool × Console)
unfolding vemit
cli_error f tx fmt args c = vemit f tx red fmt args c

unfoldable pub cli_warn : ℕ → Tx → List ℕ → List Arg → Console → Outcome (Bool × Console)
unfolding vemit
cli_warn f tx fmt args c = vemit f tx yellow fmt args c

unfoldable pub cli_info : ℕ → Tx → List ℕ → List Arg → Console → Outcome (Bool × Console)
unfolding vemit
cli_info f tx fmt args c = vemit f tx green fmt args c
