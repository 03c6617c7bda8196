-- ===== src/UartRing/Refine.antt =====
-- A ring in bounds behaves as the queue of the bytes that it holds.
use native.Mathlib.Nat.{mod-eq_of_lt, mod_self}
use native.Mathlib.Decide.{ℕ_discrete, dec_lt}
use wio_lite_ai.Base.{
  ℕ, zero, suc, ◌+◌, ◌-◌, ◌%◌, ◌≤◌, ◌<◌, ◌≡◌, ◌≢◌, refl, ap, arith, true, false, none, some, List,
  [], ◌∷◌, ◌++◌, length, length-append, append_assoc, append-nil, if◌then◌else◌, leb, get_or, set,
  take, min, take-nil, take-pos, inl, inr, ◌⊎◌,
}
use wio_lite_ai.UartRing.{Ring, add_size, count, free, put, get, put_buf_from, put_buf, get_buf}
use wio_lite_ai.UartRing.Slices.{slice, length-slice, slice-set, slice-pos, slice-set_end}
use wio_lite_ai.UartRing.Queue
use wio_lite_ai.UartRing.Queue.{
  Op, puts, gets, put_bufs, get_bufs, counts, frees, Reply, stored, popped, accepted, copied,
  counted,
}
use wio_lite_ai.UartRing.Bounds.{InBounds, put-InBounds, get-InBounds, free-add-count}

-- The bytes stored, oldest first: one run, or two where they go round the end of the buffer.
unfoldable pub contents : Ring → List ℕ
contents r =
    if leb r.tail r.head
    then slice r.buf r.tail (r.head - r.tail)
    else slice r.buf r.tail (r.size - r.tail) ++ slice r.buf 0 r.head

-- The count is the number of bytes that the queue holds.
pub count-contents : {r : Ring} → InBounds r → count r ≡ length (contents r)
unfolding count contents
count-contents {r} v = ground (
  arith,
  length-slice r.buf r.tail (r.head - r.tail),
  length-append (slice r.buf r.tail (r.size - r.tail)) (slice r.buf 0 r.head),
  length-slice r.buf r.tail (r.size - r.tail),
  length-slice r.buf 0 r.head,
)

free-contents : {r : Ring} → InBounds r → free r ≡ r.size - 1 - length (contents r)
free-contents v = omega (arith, count-contents v, free-add-count v)

length-contents : {r : Ring} → InBounds r → length (contents r) + 1 ≤ r.size
length-contents v = omega (arith, count-contents v, free-add-count v)

module _ (r : Ring) where
  open r use {buf, size, head, tail}

  contents_of_le : tail ≤ head → contents r ≡ slice buf tail (head - tail)
  unfolding contents
  contents_of_le h = ground arith

  contents_of_lt : head < tail → contents r ≡ slice buf tail (size - tail) ++ slice buf 0 head
  unfolding contents
  contents_of_lt h = ground arith

  contents-empty : tail ≡ head → contents r ≡ []
  unfolding contents
  contents-empty e = ground arith

  -- The index behind `head`, and behind `tail`: one more, or 0 at the end of the buffer.
  abbrev next : ℕ → ℕ
  next i = add_size i 1 % size

  put-full : (b : ℕ) → next head ≡ tail → put r b ≡ (false, r)
  unfolding put
  put-full b e = ground arith

  put-stored :
      (b : ℕ)
      → next head ≢ tail
      → put r b ≡ (true, record r { buf = set buf head b; head = next head })
  unfolding put
  put-stored b e = ground arith

  get-empty : tail ≡ head → get r ≡ (none, r)
  unfolding get
  get-empty e = ground arith

  get-some : tail ≢ head → get r ≡ (some (get_or buf tail 0), record r { tail = next tail })
  unfolding get
  get-some e = ground arith

  next_cases :
      (i : ℕ)
      → InBounds r
      → i < size
      → ((next i ≡ i + 1) × (i + 1 < size)) ⊎ ((next i ≡ 0) × (i + 1 ≡ size))
  next_cases i v h = elim (dec_lt (i + 1) size) [
    | yes p ↦ inl (rw no_wrap (mod-eq_of_lt p), p)
    | no p ↦
        inr (rw no_wrap (let e : i + 1 ≡ size = omega arith in rw e (mod_self size)), omega arith)
  ]
    where
      no_wrap : add_size i 1 ≡ i + 1
      no_wrap = omega arith

  -- A byte stored at `head` stands at the end of the contents.
  contents-append :
      (b : ℕ)
      → InBounds r
      → next head ≢ tail
      → contents (record r { buf = set buf head b; head = next head }) ≡ contents r ++ b ∷ []
  unfolding contents
  contents-append b v ne = ground (
    arith,
    next_cases head v v.head_in,
    slice-set_end buf tail (head - tail) head b,
    slice-set buf tail (size - tail) head b,
    slice-set_end buf 0 head head b,
    append-nil (slice (set buf head b) tail (size - tail)),
    append_assoc (slice buf tail (size - tail)) (slice buf 0 head) (b ∷ []),
  )

  contents-tail :
      InBounds r
      → tail ≢ head
      → contents r ≡ get_or buf tail 0 ∷ contents (record r { tail = next tail })
  unfolding contents
  contents-tail v ne = ground (
    arith,
    next_cases tail v v.tail_in,
    slice-pos buf tail (head - tail),
    slice-pos buf tail (size - tail),
  )

  length-contents_full : InBounds r → next head ≡ tail → length (contents r) ≡ size - 1
  unfolding count
  length-contents_full v e = ground (arith, next_cases head v v.head_in, count-contents v)

  length-contents_room : InBounds r → next head ≢ tail → length (contents r) < size - 1
  unfolding count
  length-contents_room v e = ground (arith, next_cases head v v.head_in, count-contents v)

pub put_refines :
    {r : Ring} (b : ℕ)
    → InBounds r
    → let (s, r') = put r b in (s, contents r') ≡ Queue.put (r.size - 1) (contents r) b
unfolding Queue.put
put_refines {r} b v = elim (ℕ_discrete (next r r.head) r.tail) [
  | yes e ↦ rw (put-full r b e) (ground (arith, length-contents_full r v e))
  | no e ↦
      rw (put-stored r b e)
        (rw (contents-append r b v e) (ground (arith, length-contents_room r v e)))
]

pub get_refines :
    {r : Ring} → InBounds r → let (o, r') = get r in (o, contents r') ≡ Queue.get (contents r)
unfolding Queue.get
get_refines {r} v = elim (ℕ_discrete r.tail r.head) [
  | yes e ↦ rw (get-empty r e) (ground (arith, contents-empty r e))
  | no e ↦ rw (get-some r e) (rw (contents-tail r v e) refl)
]

-- What the loop of `put_buf` has done when it stops, started at `r` with `i` bytes stored.
record Wrote (r : Ring) (d : List ℕ) (i : ℕ) (out : ℕ × Ring) : Type 0 where
  in_bounds : InBounds out.1
  same_size : out.1.size ≡ r.size
  accepted_n : out.0 ≡ i + min (length d) (r.size - 1 - length (contents r))
  bytes : contents out.1 ≡ contents r ++ take (r.size - 1 - length (contents r)) d

put_buf_from-Wrote : (d : List ℕ) {r : Ring} (i : ℕ) → InBounds r → Wrote r d i (put_buf_from r d i)
unfolding put_buf_from
put_buf_from-Wrote [] {r} i v = record {
  in_bounds = v;
  same_size = refl;
  accepted_n = omega arith;
  bytes =
      ground (arith, take-nil {A = ℕ} (r.size - 1 - length (contents r)), append-nil (contents r));
}
put_buf_from-Wrote (x ∷ d) {r} i v = elim (ℕ_discrete (next r r.head) r.tail) [
  | yes e ↦ ground (arith, put-full r x e, length-contents_full r v e, append-nil (contents r))
  | no e ↦ ground (
    arith,
    put-stored r x e,
    contents-append r x v e,
    length-contents_room r v e,
    put_buf_from-Wrote d (i + 1) (put-InBounds x v),
    length-append (contents r) (x ∷ []),
    take-pos (r.size - 1 - length (contents r)) x d,
    append_assoc (contents r) (x ∷ []) (take (r.size - 1 - length (contents r) - 1) d),
  )
]

pub put_buf_refines :
    {r : Ring} (d : List ℕ)
    → InBounds r
    → let (n, r') = put_buf r d in (n, contents r') ≡ Queue.put_buf (r.size - 1) (contents r) d
unfolding put_buf Queue.put_buf
put_buf_refines d v = ground (arith, put_buf_from-Wrote d 0 v)

pub get_buf_refines :
    (n : ℕ) {r : Ring}
    → InBounds r
    → let (bs, r') = get_buf r n in (bs, contents r') ≡ Queue.get_buf (contents r) n
unfolding get_buf Queue.get_buf
get_buf_refines zero v = refl
get_buf_refines (suc n) {r} v = elim (ℕ_discrete r.tail r.head) [
  | yes e ↦ ground (arith, get-empty r e, contents-empty r e)
  | no e ↦ ground (arith, get-some r e, contents-tail r v e, get_buf_refines n (get-InBounds v))
]

-- The calls of the producer and the consumer in the order in which they take the ring.
unfoldable pub step : Ring → Op → Reply × Ring
step r (puts b) = let (s, r') = put r b in (stored s, r')
step r (get_bufs n) = let (bs, r') = get_buf r n in (copied bs, r')
step r gets = let (o, r') = get r in (popped o, r')
step r (put_bufs d) = let (n, r') = put_buf r d in (accepted n, r')
step r counts = (counted (count r), r)
step r frees = (counted (free r), r)

unfoldable pub run : Ring → List Op → List Reply
unfolding step
run r [] = []
run r (o ∷ os) = let (s, r') = step r o in s ∷ run r' os

get_buf-InBounds :
    (n : ℕ) {r : Ring} → InBounds r → InBounds (get_buf r n).1 × ((get_buf r n).1.size ≡ r.size)
unfolding get_buf
get_buf-InBounds zero v = (v, refl)
get_buf-InBounds (suc n) {r} v = elim (ℕ_discrete r.tail r.head) [
  | yes e ↦ ground (arith, get-empty r e)
  | no e ↦ ground (arith, get-some r e, get_buf-InBounds n (get-InBounds v))
]

size-put : (r : Ring) (b : ℕ) → (put r b).1.size ≡ r.size
unfolding put
size-put r b = ground arith

size-get : (r : Ring) → (get r).1.size ≡ r.size
unfolding get
size-get r = ground arith

step-InBounds :
    {r : Ring} (o : Op) → InBounds r → InBounds (step r o).1 × ((step r o).1.size ≡ r.size)
unfolding step put_buf
step-InBounds {r} (puts b) v = (put-InBounds b v, size-put r b)
step-InBounds (get_bufs n) v = get_buf-InBounds n v
step-InBounds {r} gets v = (get-InBounds v, size-get r)
step-InBounds counts v = (v, refl)
step-InBounds frees v = (v, refl)
step-InBounds (put_bufs d) v = let w = put_buf_from-Wrote d 0 v in (w.in_bounds, w.same_size)

step_refines :
    {r : Ring} (o : Op)
    → InBounds r
    → let (s, r') = step r o in (s, contents r') ≡ Queue.step (r.size - 1) (contents r) o
unfolding step Queue.step
step_refines (puts b) v = ap (λ p. (stored p.0, p.1)) (put_refines b v)
step_refines (get_bufs n) v = ap (λ p. (copied p.0, p.1)) (get_buf_refines n v)
step_refines gets v = ap (λ p. (popped p.0, p.1)) (get_refines v)
step_refines {r} counts v = ap (λ n. (counted n, contents r)) (count-contents v)
step_refines {r} frees v = ap (λ n. (counted n, contents r)) (free-contents v)
step_refines (put_bufs d) v = ap (λ p. (accepted p.0, p.1)) (put_buf_refines d v)

-- No sequence of calls of `put`, `get`, `put_buf`, `get_buf`, `count` and `free` tells a ring in
-- bounds from the queue of its contents that holds at most `size - 1` bytes: what every call returns
-- is what the queue returns.
pub run_refines :
    (os : List Op) {r : Ring} → InBounds r → run r os ≡ Queue.run (r.size - 1) (contents r) os
unfolding run Queue.run
run_refines [] v = refl
run_refines (o ∷ os) {r} v =
    rw (run_refines os (step-InBounds o v).0, ← step_refines o v, (step-InBounds o v).1)
