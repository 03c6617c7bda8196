-- ===== src/Shell/Output/Tests.antt =====
-- cli_printf.c on a console with two staged bytes, whose transport takes one packet.
use wio_lite_ai.Base.{◌≡◌, ◌⊎◌, ◌<◌, arith, true, false, [], ◌++◌, ◌==◌, length, codes}
use wio_lite_ai.Shell.Output.{Tx, Console, out_size, write_bytes}
use wio_lite_ai.Shell.Output.Stream.{write_bytes_lem}

abbrev once : Tx
once = record { lock_ok = λ n. true; send_ok = λ n bs. n == 1 }

abbrev two_staged : Console
two_staged = record { staged = codes "ab"; tx_failed = false; sent = []; asked = 0 }

write_bytes_lem_example :
    let (ok, d) = write_bytes once two_staged (codes "cd") in
    (length d.staged < out_size)
    × (((ok ≡ false) × (d.tx_failed ≡ true))
        ⊎ ((ok ≡ true)
            × (d.staged ≡ [])
            × (two_staged.tx_failed ≡ false)
            × (d.sent ≡ (two_staged.sent ++ two_staged.staged) ++ codes "cd")))
write_bytes_lem_example = write_bytes_lem once two_staged (codes "cd") (omega arith)
