-- ===== src/UartRing/Tests.antt =====
-- cli_uart_ring.h at concrete inputs.
use wio_lite_ai.Base.{
  ◌+◌, ◌≤◌, ◌<◌, ◌⊎◌, ◌≡◌, refl, arith, true, false, none, some, List, [], ◌∷◌, length, take, drop,
}
use wio_lite_ai.UartRing.{Ring, count, free, put, get, put_buf, get_buf, contig, advance_tail}
use wio_lite_ai.UartRing.Slices.{slice}
use wio_lite_ai.UartRing.Queue
use wio_lite_ai.UartRing.Queue.{
  Op, puts, gets, put_bufs, get_bufs, counts, frees, Reply, stored, popped, accepted, copied,
  counted,
}
use wio_lite_ai.UartRing.Bounds.{InBounds}
use wio_lite_ai.UartRing.Refine.{contents, run, run_refines}
use wio_lite_ai.UartRing.Drain.{contig_lem, advance_tail_lem}

-- 7, then 8, round the end of the storage.
abbrev wrapped : Ring
wrapped = record { buf = 8 ∷ 0 ∷ 0 ∷ 7 ∷ []; size = 4; head = 1; tail = 3 }

abbrev script : List Op
script = puts 9 ∷ puts 1 ∷ counts ∷ gets ∷ frees ∷ put_bufs (2 ∷ 3 ∷ []) ∷ get_bufs 5 ∷ gets ∷ []

wrapped-InBounds : InBounds wrapped
wrapped-InBounds = omega arith

all_replies :
    run wrapped script
    ≡ stored true
      ∷ stored false
      ∷ counted 3
      ∷ popped (some 7)
      ∷ counted 1
      ∷ accepted 1
      ∷ copied (8 ∷ 9 ∷ 2 ∷ [])
      ∷ popped none
      ∷ []
unfolding run put get put_buf get_buf count free
all_replies = refl

run_refines_example : run wrapped script ≡ Queue.run 3 (7 ∷ 8 ∷ []) script
unfolding contents
run_refines_example = run_refines script wrapped-InBounds

contig_lem_example :
    let (p, n) = contig wrapped in
    (p + n ≤ length wrapped.buf)
    × (n ≤ length (contents wrapped))
    × (slice wrapped.buf p n ≡ take n (contents wrapped))
    × ((0 < n) ⊎ (contents wrapped ≡ []))
contig_lem_example = contig_lem wrapped-InBounds

advance_tail_lem_example : contents (advance_tail wrapped 1) ≡ drop 1 (contents wrapped)
unfolding contig
advance_tail_lem_example = advance_tail_lem 1 wrapped-InBounds (omega arith)
