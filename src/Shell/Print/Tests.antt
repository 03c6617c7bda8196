-- ===== src/Shell/Print/Tests.antt =====
-- cli_error on a console whose transport takes every packet.
use wio_lite_ai.Base.{◌≡◌, refl, true, false, [], ◌∷◌, codes}
use wio_lite_ai.Shell.Output.{Tx, Console, write_bytes}
use wio_lite_ai.Shell.Print.{red, vemit}
use wio_lite_ai.Shell.Print.Whole.{colored, vemit-write_bytes}
use wio_lite_ai.Fmt.{
  word, done, vformat, convert, directive, flags, field_width, length_modifier, utoa, utoa_loop,
}
use wio_lite_ai.Fmt.Render.{rendered}

abbrev open_line : Tx
open_line = record { lock_ok = λ n. true; send_ok = λ n bs. true }

abbrev quiet : Console
quiet = record { staged = []; tx_failed = false; sent = []; asked = 0 }

code_shown : rendered 8 (codes "E%u") (word 7 ∷ []) ≡ done (codes "E7")
unfolding rendered vformat convert directive flags field_width length_modifier utoa utoa_loop
code_shown = refl

vemit-write_bytes_example :
    vemit 8 open_line red (codes "E%u") (word 7 ∷ []) quiet
    ≡ done (write_bytes open_line quiet (colored red (codes "E7")))
vemit-write_bytes_example =
    vemit-write_bytes 8 open_line (codes "E%u") (word 7 ∷ []) (codes "E7") red quiet code_shown
