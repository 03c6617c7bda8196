-- ===== src/UartRing/Drain.antt =====
-- The transmit path: `contig` hands out a slice of the buffer, `advance_tail` drops what was sent.
use native.Mathlib.Nat.{mod-eq_of_lt, mod_self}
use wio_lite_ai.Base.{
  ℕ, ◌+◌, ◌-◌, ◌%◌, ◌≤◌, ◌<◌, ◌≡◌, ◌⊎◌, arith, length, take, drop, [], take_all, take-append_of_le,
  drop-append_of_le, length-append,
}
use wio_lite_ai.UartRing.{Ring, add_size, contig, advance_tail}
use wio_lite_ai.UartRing.Slices.{slice, length-slice, drop-slice}
use wio_lite_ai.UartRing.Bounds.{InBounds}
use wio_lite_ai.UartRing.Refine.{contents}

-- For a ring in bounds, the slice that `contig` hands out lies in the buffer, is the front of the
-- contents, and is empty only if they are.
pub contig_lem :
    {r : Ring}
    → InBounds r
    → let (p, run) = contig r in
      (p + run ≤ length r.buf)
      × (run ≤ length (contents r))
      × (slice r.buf p run ≡ take run (contents r))
      × ((0 < run) ⊎ (contents r ≡ []))
unfolding contig contents
contig_lem {r} v = ground (
  arith,
  length-slice buf tail (head - tail),
  length-slice buf tail (size - tail),
  length-append (slice buf tail (size - tail)) (slice buf 0 head),
  take_all (head - tail) (slice buf tail (head - tail)),
  take_all (size - tail) (slice buf tail (size - tail)),
  take-append_of_le (size - tail) (slice buf tail (size - tail)) (slice buf 0 head),
)
  where
    open r use {buf, size, head, tail}

advanced_in :
    (r : Ring) (n : ℕ) → InBounds r → r.tail + n < r.size → add_size r.tail n % r.size ≡ r.tail + n
advanced_in r n v h = rw no_wrap (mod-eq_of_lt h)
  where
    no_wrap : add_size r.tail n ≡ r.tail + n
    no_wrap = omega arith

advanced_end :
    (r : Ring) (n : ℕ) → InBounds r → r.tail + n ≡ r.size → add_size r.tail n % r.size ≡ 0
advanced_end r n v h = rw no_wrap (mod_self r.size)
  where
    no_wrap : add_size r.tail n ≡ r.size
    no_wrap = omega arith

-- For a ring in bounds, advancing by at most the length that `contig` hands out drops as many bytes
-- from the front of the contents.
pub advance_tail_lem :
    {r : Ring} (n : ℕ)
    → InBounds r
    → n ≤ (contig r).1
    → contents (advance_tail r n) ≡ drop n (contents r)
unfolding contig contents advance_tail
advance_tail_lem {r} n v h = ground (
  arith,
  advanced_in r n v,
  advanced_end r n v,
  drop-slice buf tail (head - tail) n,
  drop-slice buf tail (size - tail) n,
  length-slice buf tail (size - tail),
  drop-append_of_le n (slice buf tail (size - tail)) (slice buf 0 head),
)
  where
    open r use {buf, size, head, tail}
