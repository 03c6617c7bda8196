-- ===== src/UartRing/Queue.antt =====
-- What a client of cli_uart_ring.h relies on: a first-in first-out queue of at most `cap` bytes.
use wio_lite_ai.Base.{
  ℕ, ◌-◌, min, Bool, true, false, Option, none, some, List, [], ◌∷◌, ◌++◌, ltb, if◌then◌else◌,
  length, take, drop,
}

pub data Op : Type 0 where
  puts get_bufs : ℕ → Op
  gets counts frees : Op
  put_bufs : List ℕ → Op

-- What a call returns: a flag, the bytes read, or a count.
pub data Reply : Type 0 where
  stored : Bool → Reply
  popped : Option ℕ → Reply
  accepted counted : ℕ → Reply
  copied : List ℕ → Reply

abbrev pub Queue : Type 0
Queue = List ℕ

unfoldable pub get : Queue → Option ℕ × Queue
get [] = (none, [])
get (x ∷ q) = (some x, q)

unfoldable pub put : ℕ → Queue → ℕ → Bool × Queue
put cap q x = if ltb (length q) cap then (true, q ++ x ∷ []) else (false, q)

-- A block is taken from its front as far as there is room.
unfoldable pub put_buf : ℕ → Queue → List ℕ → ℕ × Queue
put_buf cap q d = (min (length d) (cap - length q), q ++ take (cap - length q) d)

unfoldable pub get_buf : Queue → ℕ → List ℕ × Queue
get_buf q n = (take n q, drop n q)

unfoldable pub step : ℕ → Queue → Op → Reply × Queue
unfolding put get put_buf get_buf
step cap q (puts b) = let (s, q') = put cap q b in (stored s, q')
step cap q (get_bufs n) = let (bs, q') = get_buf q n in (copied bs, q')
step cap q gets = let (o, q') = get q in (popped o, q')
step cap q (put_bufs d) = let (n, q') = put_buf cap q d in (accepted n, q')
step cap q counts = (counted (length q), q)
step cap q frees = (counted (cap - length q), q)

unfoldable pub run : ℕ → Queue → List Op → List Reply
unfolding step
run cap q [] = []
run cap q (o ∷ os) = let (r, q') = step cap q o in r ∷ run cap q' os
