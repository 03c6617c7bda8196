-- ===== src/UartRing/Bounds.antt =====
-- The invariant of the byte ring: every index lies in the buffer, and no sum wraps.
use wio_lite_ai.Base.{ℕ, ◌+◌, ◌^◌, ◌≤◌, ◌<◌, ◌≡◌, arith, List, length, length-set}
use wio_lite_ai.UartRing.{Ring, init, count, free, put, get, advance_tail}

-- The buffer holds `size` bytes, and is far smaller than the address space.
pub record InBounds (r : Ring) : Type 0 where
  pub storage : r.size ≤ length r.buf
  pub small : r.size < 2 ^ 31
  pub head_in : r.head < r.size
  pub tail_in : r.tail < r.size

pub init-InBounds :
    (buf : List ℕ) (n : ℕ) → 0 < n → n ≤ length buf → n < 2 ^ 31 → InBounds (init buf n)
unfolding init
init-InBounds buf n h k l = omega arith

pub put-InBounds : {r : Ring} (b : ℕ) → InBounds r → InBounds (put r b).1
unfolding put
put-InBounds {r} b v = ground (arith, length-set r.buf r.head b)

pub get-InBounds : {r : Ring} → InBounds r → InBounds (get r).1
unfolding get
get-InBounds v = ground arith

pub advance_tail-InBounds : {r : Ring} (n : ℕ) → InBounds r → InBounds (advance_tail r n)
unfolding advance_tail
advance_tail-InBounds n v = ground arith

pub free-add-count : {r : Ring} → InBounds r → free r + count r + 1 ≡ r.size
unfolding free count
free-add-count {r} v = ground arith
