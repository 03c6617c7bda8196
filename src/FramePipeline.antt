-- ===== src/FramePipeline.antt =====
-- svc/frame_pipeline.c and its header: the ring of camera frames and the sinks that they go to.
-- A frame descriptor and its slot are the slot's index; a sink is its address in a store of sinks,
-- and the list through `_next` is the list of the sinks on it, each at most once. Every function
-- takes the pipeline's lock round each group of accesses; a definition here is one such group, and
-- what the C function does with the lock released (`open`, `consume`, `close`) stands between two
-- of them. A pointer argument is not NULL, but for the sink of `put` and `get`. `refcount` and `_pins` are C `int`s that only count up from 0; they are not wrapped.
pub mod Acquire
pub mod Ledger
pub mod Invariant
pub mod Books
pub mod Offers
pub mod Preserve
pub mod Run
pub mod Intact
mod Tests
use wio_lite_ai.Base.{
  ℕ, zero, suc, ◌+◌, ◌-◌, ◌*◌, ◌%◌, ◌^◌, ◌&&◌, ◌||◌, not, Bool, true, false, Option, none, some,
  List, [], ◌∷◌, ◌++◌, ◌==◌, leb, ltb, if◌then◌else◌, length, update, Mem,
}

abbrev pub max_slots : ℕ
max_slots = 8

abbrev pub max_sinks : ℕ
max_sinks = 4

-- The successor of a uint32_t counter.
abbrev pub bump : ℕ → ℕ
bump n = (n + 1) % 2 ^ 32

pub data SlotState : Type 0 where
  free filling : SlotState

pub data Policy : Type 0 where
  drop latest_only : Policy

-- The geometry that a frame is published with.
pub record Geometry : Type 0 where
  pub format : ℕ
  pub width : ℕ
  pub height : ℕ
  pub stride : ℕ

-- `struct frame_slot` with its descriptor; `address` is the descriptor's `data`.
pub record Slot : Type 0 where
  pub address : ℕ
  pub bytes : ℕ
  pub gen : ℕ
  pub geometry : Geometry
  pub state : SlotState
  pub refcount : ℕ

pub record Sink : Type 0 where
  pub policy : Policy
  pub delivered : ℕ
  pub dropped : ℕ
  pub errors : ℕ
  pub pending : Option ℕ
  pub busy : Bool
  pub pins : ℕ

pub record Stats : Type 0 where
  pub captured : ℕ
  pub published : ℕ
  pub overruns : ℕ

-- `struct frame_pipeline`, with the store of the sinks. A `latest` of -1 is `none`.
pub record Pipeline : Type 0 where
  pub slot : ℕ → Slot
  pub nslots : ℕ
  pub slot_size : ℕ
  pub latest : Option ℕ
  pub gen : ℕ
  pub format : ℕ
  pub width : ℕ
  pub height : ℕ
  pub stats : Stats
  pub sinks : List ℕ
  pub sink : ℕ → Sink

abbrev pub set_slot : Pipeline → ℕ → Slot → Pipeline
set_slot p i v = record p { slot = update p.slot i v }

abbrev pub set_sink : Pipeline → ℕ → Sink → Pipeline
set_sink p s v = record p { sink = update p.sink s v }

abbrev no_geometry : Geometry
no_geometry = record { format = 0; width = 0; height = 0; stride = 0 }

-- The pipeline that `frame_pipeline_init` sets up. FRAME_FMT_RGB565 is 0.
abbrev pub fresh : (ℕ → Sink) → ℕ → ℕ → ℕ → Pipeline
fresh sink mem slot_size nslots = record {
  slot = λ i. record {
    address = if ltb i nslots then mem + i * slot_size else 0;
    bytes = 0;
    gen = 0;
    geometry = no_geometry;
    state = free;
    refcount = 0;
  };
  nslots = nslots;
  slot_size = slot_size;
  latest = none;
  gen = 0;
  format = 0;
  width = 0;
  height = 0;
  stats = record { captured = 0; published = 0; overruns = 0 };
  sinks = [];
  sink = sink;
}

-- `frame_pipeline_init`, at a slot memory that is not NULL and begins at `mem`; `sink` is the
-- store, which it leaves alone.
unfoldable pub init : (ℕ → Sink) → ℕ → ℕ → ℕ → Option Pipeline
init sink mem slot_size nslots =
    if slot_size == 0 || nslots == 0 || ltb max_slots nslots
    then none
    else some (fresh sink mem slot_size nslots)

unfoldable pub set_format : Pipeline → ℕ → ℕ → ℕ → Pipeline
set_format p fmt w h = record p { format = fmt; width = w; height = h }

-- One pin of a sink, or of a reader with no sink, taken and dropped.
unfoldable pub pin : Option ℕ → ℕ → Pipeline → Pipeline
pin none f p = set_slot p f (record (p.slot f) { refcount = (p.slot f).refcount + 1 })
pin (some s) f p =
    let p' = set_slot p f (record (p.slot f) { refcount = (p.slot f).refcount + 1 }) in
    set_sink p' s (record (p.sink s) { pins = (p.sink s).pins + 1 })

unfoldable pub drop_one : ℕ → ℕ
drop_one n = if ltb 0 n then n - 1 else n

-- `unpin_locked`
unfoldable pub unpin : Option ℕ → ℕ → Pipeline → Pipeline
unfolding drop_one
unpin none f p = set_slot p f (record (p.slot f) { refcount = drop_one (p.slot f).refcount })
unpin (some s) f p =
    let p' = set_slot p f (record (p.slot f) { refcount = drop_one (p.slot f).refcount }) in
    set_sink p' s (record (p.sink s) { pins = drop_one (p.sink s).pins })

abbrev pub is_free : SlotState → Bool
is_free free = true
is_free filling = false

abbrev pub is_index : Option ℕ → ℕ → Bool
is_index none i = false
is_index (some j) i = j == i

-- The test of `acquire` on a slot.
unfoldable pub is_reusable : Pipeline → ℕ → Bool
is_reusable p i = is_free (p.slot i).state && (p.slot i).refcount == 0 && not (is_index p.latest i)

-- `for (i = 0; i < nslots; i++)`: the first such slot among the `n` from `i` on.
unfoldable pub find_slot : Pipeline → ℕ → ℕ → Option ℕ
find_slot p i zero = none
find_slot p i (suc n) = elim (is_reusable p i) [ true ↦ some i | false ↦ find_slot p (i + 1) n ]

unfoldable pub take_slot : Pipeline → Option ℕ → Pipeline
take_slot p none = record p { stats = record (p.stats) { overruns = bump p.stats.overruns } }
take_slot p (some i) = record p {
  slot = update p.slot i (record (p.slot i) { state = filling });
  stats = record (p.stats) { captured = bump p.stats.captured };
}

unfoldable pub acquire : Pipeline → Option ℕ × Pipeline
acquire p = let i = find_slot p 0 p.nslots in (i, take_slot p i)

-- The head of `frame_pipeline_publish`: the frame is stamped and becomes the latest.
unfoldable pub stamp : Pipeline → ℕ → ℕ → Geometry → Pipeline
stamp p f bytes g = record p {
  gen = bump p.gen;
  slot =
      update p.slot f
        (record (p.slot f) { gen = bump p.gen; bytes = bytes; geometry = g; state = free });
  latest = some f;
  stats = record (p.stats) { published = bump p.gen };
}

-- A busy LATEST sink: an older pending frame is dropped for this one.
unfoldable pub supersede : Option ℕ → ℕ → ℕ → Pipeline → Pipeline
unfolding unpin
supersede none s f p = p
supersede (some old) s f p =
    let q = unpin (some s) old p in
    set_sink q s (record (q.sink s) { dropped = bump (q.sink s).dropped })

unfoldable pub wait : ℕ → ℕ → Pipeline → Pipeline
unfolding supersede pin
wait s f p =
    let q = supersede (p.sink s).pending s f p in
    pin (some s) f (set_sink q s (record (q.sink s) { pending = some f }))

unfoldable pub start : ℕ → ℕ → Pipeline → Pipeline
unfolding pin
start s f p = pin (some s) f (set_sink p s (record (p.sink s) { busy = true }))

unfoldable pub refuse : ℕ → Pipeline → Pipeline
refuse s p = set_sink p s (record (p.sink s) { dropped = bump (p.sink s).dropped })

-- One sink of the list: the pipeline, and the deliveries to make once the lock is released.
unfoldable pub offer_by : Bool → Policy → ℕ → ℕ → Pipeline × List ℕ → Pipeline × List ℕ
unfolding wait start refuse
offer_by true drop s f (p, deliver) = (refuse s p, deliver)
offer_by true latest_only s f (p, deliver) = (wait s f p, deliver)
offer_by false policy s f (p, deliver) =
    (start s f p, if ltb (length deliver) max_sinks then deliver ++ s ∷ [] else deliver)

unfoldable pub offer : ℕ → ℕ → Pipeline × List ℕ → Pipeline × List ℕ
offer s f (p, deliver) = offer_by (p.sink s).busy (p.sink s).policy s f (p, deliver)

unfoldable pub offer_all : List ℕ → ℕ → Pipeline × List ℕ → Pipeline × List ℕ
offer_all [] f d = d
offer_all (s ∷ ss) f d = offer_all ss f (offer s f d)

-- `frame_pipeline_publish` up to its first unlock: the sinks whose `consume` it then calls.
unfoldable pub publish : Pipeline → ℕ → ℕ → Geometry → Pipeline × List ℕ
publish p f bytes g = let q = stamp p f bytes g in offer_all q.sinks f (q, [])

-- After `consume` has returned, in `publish` and in `put`; the flag is `rc < 0`.
unfoldable pub consumed : ℕ → Bool → Pipeline → Pipeline
consumed s failed p =
    let e = if failed then bump (p.sink s).errors else (p.sink s).errors in
    set_sink p s (record (p.sink s) { errors = e; delivered = bump (p.sink s).delivered })

-- `frame_pipeline_attach` in its first group: whether there is room for one more sink.
unfoldable pub has_room : Pipeline → Bool
has_room p = ltb (length p.sinks) max_sinks

-- Its second group, when `open` has not refused.
unfoldable pub attach : Pipeline → ℕ → Pipeline
attach p s = record p {
  sink = update p.sink s (record (p.sink s) {
    delivered = 0;
    dropped = 0;
    errors = 0;
    pending = none;
    busy = false;
    pins = 0;
  });
  sinks = s ∷ p.sinks;
}

unfoldable pub unlink : ℕ → List ℕ → List ℕ
unlink s [] = []
unlink s (x ∷ xs) = if x == s then xs else x ∷ unlink s xs

unfoldable pub drop_pending : Option ℕ → ℕ → Pipeline → Pipeline
unfolding unpin
drop_pending none s p = p
drop_pending (some f) s p =
    let q = unpin (some s) f p in set_sink q s (record (q.sink s) { pending = none })

-- `frame_pipeline_detach`: the pins in flight and the pipeline.
unfoldable pub detach : Pipeline → ℕ → ℕ × Pipeline
unfolding unlink drop_pending
detach p s =
    let q = record p { sinks = unlink s p.sinks } in
    let q' = drop_pending (q.sink s).pending s q in ((q'.sink s).pins, q')

-- `frame_pipeline_put` up to its first unlock: the frame whose delivery follows, if any.
unfoldable pub idle : ℕ → Option ℕ → Pipeline → Option ℕ × Pipeline
idle s none p = (none, set_sink p s (record (p.sink s) { busy = false }))
idle s (some f) p = (some f, set_sink p s (record (p.sink s) { busy = true; pending = none }))

unfoldable pub put : Option ℕ → ℕ → Pipeline → Option ℕ × Pipeline
unfolding unpin idle
put none f p = (none, unpin none f p)
put (some s) f p = let q = unpin (some s) f p in idle s (q.sink s).pending q

-- `frame_pipeline_read_latest` for `dst` not NULL: the address to copy `len` bytes from, and the
-- generation; `none` is -1.
unfoldable pub read_at : Slot → ℕ → ℕ → Option (ℕ × ℕ)
read_at v off len =
    if ltb off v.bytes && leb len (v.bytes - off) then some (v.address + off, v.gen) else none

unfoldable pub read_latest : Pipeline → ℕ → ℕ → Option (ℕ × ℕ)
unfolding read_at
read_latest p off len =
    if len == 0 then none else elim p.latest [ none ↦ none | some i ↦ read_at (p.slot i) off len ]

unfoldable pub pin_latest : Pipeline → Option ℕ × Pipeline
unfolding pin
pin_latest p = elim p.latest [ none ↦ (none, p) | some i ↦ (some i, pin none i p) ]
