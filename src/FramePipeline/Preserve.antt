-- ===== src/FramePipeline/Preserve.antt =====
-- Every operation keeps the counts and the waiting frames in agreement with the ledger.
use native.Mathlib.Decide.{ℕ_discrete}
use wio_lite_ai.Base.{
  ℕ, ◌<◌, ◌≡◌, ◌≢◌, refl, sym, arith, Bool, true, Option, none, some, List, [], ◌∷◌, update, inl,
  inr, ◌⊎◌, subst,
}
use wio_lite_ai.FramePipeline.{
  SlotState, free, filling, Geometry, Sink, Pipeline, set_sink, unpin, consumed, idle, put, stamp,
  publish, attach, detach, drop_pending, acquire, take_slot,
}
use wio_lite_ai.FramePipeline.Ledger.{
  Entry, reader, given, waits, slot_pins, sink_pins, holds, strike, holds-strike, slot_pins-strike,
  sink_pins-strike,
}
use wio_lite_ai.FramePipeline.Invariant.{
  Counts, Inv, place, on_slot-place, unpin-Counts, pending-unpin,
}
use wio_lite_ai.FramePipeline.Books.{
  struck, set_sink-Inv, set_pending-Inv, unpin-Inv, unpin-WaitsBut, holds-cons,
}
use wio_lite_ai.FramePipeline.Offers.{offer_all-Inv, book_all}
use wio_lite_ai.FramePipeline.Acquire.{acquire_frame, First, Reusable}

-- The ledger once the frame that waits for a sink that has become idle is given to it.
abbrev pub handed : Option ℕ → ℕ → List Entry → List Entry
handed none s l = l
handed (some g) s l = given s g ∷ strike (waits s g) l

SlotState-cases : (v : SlotState) → (v ≡ free) ⊎ (v ≡ filling)
SlotState-cases free = inl refl
SlotState-cases filling = inr refl

pub held-pinned :
    (e : Entry) (p : Pipeline) (l : List Entry)
    → holds e l ≡ true
    → Counts p l
    → 0 < (p.slot (place e)).refcount
held-pinned e p l h c =
    omega (arith, c.refs (place e), slot_pins-strike (place e) e l h, on_slot-place e)

-- A slot with a pin in the ledger is not being filled.
pub held-free :
    (e : Entry) (p : Pipeline) (l : List Entry)
    → holds e l ≡ true
    → Inv p l
    → (p.slot (place e)).state ≡ free
held-free e p l h c = elim (SlotState-cases (p.slot (place e)).state) [
  | inl k ↦ k
  | inr k ↦ absurd (omega (arith, held-pinned e p l h c.counts, c.counts.unpinned (place e) k))
]

-- A slot that may be reused is marked as being filled.
take_slot-Inv :
    (o : Option ℕ) (p : Pipeline) (l : List Entry)
    → ((i : ℕ) → o ≡ some i → Reusable p i)
    → Inv p l
    → Inv (take_slot p o) l
unfolding take_slot
take_slot-Inv none p l h c = record {
  counts = record {
    refs = c.counts.refs;
    pins = c.counts.pins;
    unpinned = c.counts.unpinned;
    published = c.counts.published;
  };
  waiting = c.waiting;
}
take_slot-Inv (some i) p l h c = record {
  counts = record {
    refs = λ j. ground (arith, c.counts.refs j);
    pins = c.counts.pins;
    unpinned = λ j e. ground (arith, c.counts.unpinned j, (h i refl).no_pins);
    published = λ j e. ground (arith, c.counts.published j, (h i refl).not_latest);
  };
  waiting = c.waiting;
}

pub found-Reusable :
    (p : Pipeline) (n : ℕ) (o : Option ℕ) → First p 0 n o → (i : ℕ) → o ≡ some i → Reusable p i
found-Reusable p n none h i e = cc
found-Reusable p n (some k) h i e = let ki : k ≡ i = cc in rw (sym ki) (h.2)

pub acquire-Inv : (p : Pipeline) (l : List Entry) → Inv p l → Inv (acquire p).1 l
unfolding acquire
acquire-Inv p l c =
    take_slot-Inv (acquire p).0 p l (found-Reusable p p.nslots (acquire p).0 (acquire_frame p).0) c

pub stamp-Inv :
    (p : Pipeline) (f bytes : ℕ) (g : Geometry) (l : List Entry)
    → (p.slot f).state ≡ filling
    → Inv p l
    → Inv (stamp p f bytes g) l
unfolding stamp
stamp-Inv p f bytes g l h c = record {
  counts = record {
    refs = λ i. ground (arith, c.counts.refs i);
    pins = c.counts.pins;
    unpinned = λ i e. ground (arith, c.counts.unpinned i);
    published = λ i e. ground arith;
  };
  waiting = c.waiting;
}

pub stamp-free :
    (p : Pipeline) (f bytes : ℕ) (g : Geometry) → ((stamp p f bytes g).slot f).state ≡ free
unfolding stamp
stamp-free p f bytes g = ground arith

pub publish-Inv :
    (p : Pipeline) (f bytes : ℕ) (g : Geometry) (l : List Entry)
    → (p.slot f).state ≡ filling
    → Inv p l
    → Inv (publish p f bytes g).0 (book_all p.sinks f (stamp p f bytes g, []) l)
unfolding publish stamp
publish-Inv p f bytes g l h c =
    (offer_all-Inv p.sinks f (stamp p f bytes g) [] l (stamp-free p f bytes g)
      (stamp-Inv p f bytes g l h c)).0

pub consumed-Inv :
    (s : ℕ) (b : Bool) (p : Pipeline) (l : List Entry) → Inv p l → Inv (consumed s b p) l
unfolding consumed
consumed-Inv s b p l c = set_sink-Inv p s _ l refl refl c

pub attach-Inv :
    (p : Pipeline) (s : ℕ) (l : List Entry) → sink_pins s l ≡ 0 → Inv p l → Inv (attach p s) l
unfolding attach
attach-Inv p s l h c = record {
  counts = record {
    refs = c.counts.refs;
    pins = λ t. ground (arith, c.counts.pins t, h);
    unpinned = c.counts.unpinned;
    published = c.counts.published;
  };
  waiting = λ t f e. ground (arith, c.waiting t f);
}

drop_pending-Inv :
    (o : Option ℕ) (s : ℕ) (p : Pipeline) (l : List Entry)
    → (p.sink s).pending ≡ o
    → Inv p l
    → Inv (drop_pending o s p) (struck o s l)
unfolding drop_pending
drop_pending-Inv none s p l h c = c
drop_pending-Inv (some g) s p l h c =
    set_pending-Inv (unpin (some s) g p) s _ (strike (waits s g) l) refl (λ f e. cc)
      (unpin-Counts (waits s g) p l (c.waiting s g h) c.counts) (unpin-WaitsBut s g p l c)

set_sinks-Inv :
    (p : Pipeline) (ss : List ℕ) (l : List Entry) → Inv p l → Inv (record p { sinks = ss }) l
set_sinks-Inv p ss l c = record {
  counts = record {
    refs = c.counts.refs;
    pins = c.counts.pins;
    unpinned = c.counts.unpinned;
    published = c.counts.published;
  };
  waiting = c.waiting;
}

pub detach-Inv :
    (p : Pipeline) (s : ℕ) (l : List Entry)
    → Inv p l
    → Inv (detach p s).1 (struck (p.sink s).pending s l)
unfolding detach
detach-Inv p s l c = drop_pending-Inv (p.sink s).pending s _ l refl (set_sinks-Inv p _ l c)

-- The waiting frame becomes the one that the sink has been given.
hand-Inv :
    (s g : ℕ) (v : Sink) (p : Pipeline) (l : List Entry)
    → v.pins ≡ (p.sink s).pins
    → v.pending ≡ none
    → (p.sink s).pending ≡ some g
    → Inv p l
    → Inv (set_sink p s v) (given s g ∷ strike (waits s g) l)
unfolding slot_pins sink_pins
hand-Inv s g v p l h k e c = record {
  counts = record {
    refs = λ i. ground (arith, c.counts.refs i, slot_pins-strike i (waits s g) l (c.waiting s g e));
    pins =
        λ t. ground (arith, c.counts.pins t, sink_pins-strike t (waits s g) l (c.waiting s g e), h);
    unpinned = c.counts.unpinned;
    published = c.counts.published;
  };
  waiting = λ t f x. elim (ℕ_discrete t s) [
    | yes same_sink ↦ absurd (some≢none g f s t v p same_sink k x)
    | no other ↦ holds-cons (waits t f) (given s g) (strike (waits s g) l) (
        holds-strike (waits s g) (waits t f) l (ground (arith, other))
          (c.waiting t f (ground (arith, other, x))))
  ];
}
  where
    some≢none :
        (g f s t : ℕ) (v : Sink) (p : Pipeline)
        → t ≡ s
        → v.pending ≡ none
        → (update p.sink s v t).pending ≢ some f
    some≢none g f s t v p ts k x = ground (arith, ts, k, x)

idle-Inv :
    (o : Option ℕ) (s : ℕ) (p : Pipeline) (l : List Entry)
    → (p.sink s).pending ≡ o
    → Inv p l
    → Inv (idle s o p).1 (handed o s l)
unfolding idle
idle-Inv none s p l e c = set_sink-Inv p s _ l refl refl c
idle-Inv (some g) s p l e c = hand-Inv s g _ p l refl refl e c

pub reader_put-Inv :
    (f : ℕ) (p : Pipeline) (l : List Entry)
    → holds (reader f) l ≡ true
    → Inv p l
    → Inv (put none f p).1 (strike (reader f) l)
unfolding put
reader_put-Inv f p l h c = unpin-Inv (reader f) p l (λ t g. refl) h c

pub sink_put-Inv :
    (s f : ℕ) (p : Pipeline) (l : List Entry)
    → holds (given s f) l ≡ true
    → Inv p l
    → Inv (put (some s) f p).1 (handed (p.sink s).pending s (strike (given s f) l))
unfolding put
sink_put-Inv s f p l h c =
    let q = unpin (some s) f p in
    subst (λ o. Inv (idle s (q.sink s).pending q).1 (handed o s (strike (given s f) l)))
      (pending-unpin (some s) f p s)
      (idle-Inv (q.sink s).pending s q _ refl (unpin-Inv (given s f) p l (λ t g. refl) h c))
