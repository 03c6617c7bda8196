-- ===== src/UartRing.antt =====
-- shell/backend/cli_uart_ring.h, the byte ring between an interrupt handler and the shell thread.
-- `struct cli_uart_ring` is `Ring`, its buffer a list of bytes; a function that writes through
-- `r` returns the new ring. A pointer into the buffer is the index that it points at. `size_t` has
-- 32 bits on the Cortex-M7, and its sums and differences wrap.
pub mod Queue
mod Slices
pub mod Bounds
pub mod Refine
pub mod Drain
mod Tests
use wio_lite_ai.Base.{
  ℕ, zero, suc, ◌+◌, ◌-◌, ◌%◌, ◌^◌, Bool, true, false, Option, none, some, List, [], ◌∷◌, ◌==◌, leb,
  if◌then◌else◌, get_or, set,
}

pub record Ring : Type 0 where
  pub buf : List ℕ
  pub size : ℕ
  pub head : ℕ
  pub tail : ℕ

abbrev pub add_size : ℕ → ℕ → ℕ
add_size a b = (a + b) % 2 ^ 32

abbrev pub sub_size : ℕ → ℕ → ℕ
sub_size a b = (a + 2 ^ 32 - b) % 2 ^ 32

pub init : List ℕ → ℕ → Ring
init buf size = record { buf = buf; size = size; head = 0; tail = 0 }

pub count : Ring → ℕ
count r =
    if leb r.tail r.head then sub_size r.head r.tail else add_size (sub_size r.size r.tail) r.head

pub free : Ring → ℕ
unfolding count
free r = sub_size (sub_size r.size 1) (count r)

pub put : Ring → ℕ → Bool × Ring
put r b =
    let next = add_size r.head 1 % r.size in
    if next == r.tail
    then (false, r)
    else (true, record r { buf = set r.buf r.head b; head = next })

-- `none` when empty, else the byte that goes through `b`. A read out of range, which `InBounds`
-- rules out, gives 0.
pub get : Ring → Option ℕ × Ring
get r =
    if r.tail == r.head
    then (none, r)
    else (some (get_or r.buf r.tail 0), record r { tail = add_size r.tail 1 % r.size })

-- The list is `d[i..n)`. `i++` runs only at `i < n`, so it cannot wrap.
pub put_buf_from : Ring → List ℕ → ℕ → ℕ × Ring
put_buf_from r [] i = (i, r)
put_buf_from r (x ∷ xs) i =
    let (stored, r') = put r x in
    elim stored [ true ↦ put_buf_from r' xs (i + 1) | false ↦ (i, r') ]

pub put_buf : Ring → List ℕ → ℕ × Ring
unfolding put_buf_from
put_buf r d = put_buf_from r d 0

-- The bytes copied to `d[0..]`; their number is what the C function returns. `n` is `cap - i`.
pub get_buf : Ring → ℕ → List ℕ × Ring
get_buf r zero = ([], r)
get_buf r (suc n) =
    let (byte, r') = get r in
    elim byte [ none ↦ ([], r') | some b ↦ let (bs, r'') = get_buf r' n in (b ∷ bs, r'') ]

-- The slice: the index where it starts, and its length.
pub contig : Ring → ℕ × ℕ
contig r = (r.tail, if leb r.tail r.head then sub_size r.head r.tail else sub_size r.size r.tail)

pub advance_tail : Ring → ℕ → Ring
advance_tail r n = record r { tail = add_size r.tail n % r.size }
