-- ===== src/FramePipeline/Books.antt =====
-- What each operation on the pins, the sinks and the frames does to the ledger: the counts and the
-- waiting frames stay in agreement with it.
use native.Mathlib.Decide.{ℕ_discrete}
use wio_lite_ai.Base.{
  ℕ, ◌≡◌, ◌≢◌, refl, sym, ap, ◌∙◌, arith, true, false, Option, none, some, List, ◌∷◌,
}
use wio_lite_ai.FramePipeline.{
  SlotState, free, Geometry, Slot, Sink, Pipeline, set_sink, pin, unpin,
}
use wio_lite_ai.FramePipeline.Ledger.{Entry, waits, same, holds, strike, holds-strike}
use wio_lite_ai.FramePipeline.Invariant.{
  Counts, Inv, owner, place, pin-Counts, unpin-Counts, set_sink-Counts, pending-pin, pending-unpin,
  latest-pin, latest-unpin,
}

-- All of a slot but its reference count: the frame and the state.
abbrev pub content : Slot → ℕ × ℕ × ℕ × Geometry × SlotState
content v = (v.address, v.bytes, v.gen, v.geometry, v.state)

pub content-pin :
    (o : Option ℕ) (f : ℕ) (p : Pipeline) (i : ℕ)
    → content ((pin o f p).slot i) ≡ content (p.slot i)
unfolding pin
content-pin none f p i = ground arith
content-pin (some s) f p i = ground arith

pub content-unpin :
    (o : Option ℕ) (f : ℕ) (p : Pipeline) (i : ℕ)
    → content ((unpin o f p).slot i) ≡ content (p.slot i)
unfolding unpin
content-unpin none f p i = ground arith
content-unpin (some s) f p i = ground arith

pub holds-cons : (y e : Entry) (l : List Entry) → holds y l ≡ true → holds y (e ∷ l) ≡ true
unfolding holds
holds-cons y e l h = ground arith

pub holds-first : (s f : ℕ) (l : List Entry) → holds (waits s f) (waits s f ∷ l) ≡ true
unfolding holds
holds-first s f l = ground arith

-- The waiting frames of all sinks but one are in the ledger.
unfoldable pub WaitsBut : ℕ → Pipeline → List Entry → Type 0
WaitsBut s p l = (t f : ℕ) → t ≢ s → (p.sink t).pending ≡ some f → holds (waits t f) l ≡ true

-- The ledger once the frame that waits for a sink has been dropped.
abbrev pub struck : Option ℕ → ℕ → List Entry → List Entry
struck none s l = l
struck (some old) s l = strike (waits s old) l

other_wait : (t s f g : ℕ) → t ≢ s → same (waits t f) (waits s g) ≡ false
other_wait t s f g ne = ground arith

-- What `q` has in common with `p` when slots only change their counts.
pub record Keeps (p q : Pipeline) : Type 0 where
  pub content_kept : (i : ℕ) → content (q.slot i) ≡ content (p.slot i)
  pub latest_kept : q.latest ≡ p.latest
  pub nslots_kept : q.nslots ≡ p.nslots

pub Keeps-refl : (p : Pipeline) → Keeps p p
Keeps-refl p = record { content_kept = λ i. refl; latest_kept = refl; nslots_kept = refl }

pub Keeps-trans : {p q r : Pipeline} → Keeps p q → Keeps q r → Keeps p r
Keeps-trans a b = record {
  content_kept = λ i. b.content_kept i ∙ a.content_kept i;
  latest_kept = b.latest_kept ∙ a.latest_kept;
  nslots_kept = b.nslots_kept ∙ a.nslots_kept;
}

nslots-pin : (o : Option ℕ) (f : ℕ) (p : Pipeline) → (pin o f p).nslots ≡ p.nslots
unfolding pin
nslots-pin none f p = refl
nslots-pin (some s) f p = refl

nslots-unpin : (o : Option ℕ) (f : ℕ) (p : Pipeline) → (unpin o f p).nslots ≡ p.nslots
unfolding unpin
nslots-unpin none f p = refl
nslots-unpin (some s) f p = refl

pub pin-Keeps : (o : Option ℕ) (f : ℕ) (p : Pipeline) → Keeps p (pin o f p)
pin-Keeps o f p = record {
  content_kept = content-pin o f p;
  latest_kept = latest-pin o f p;
  nslots_kept = nslots-pin o f p;
}

pub unpin-Keeps : (o : Option ℕ) (f : ℕ) (p : Pipeline) → Keeps p (unpin o f p)
unpin-Keeps o f p = record {
  content_kept = content-unpin o f p;
  latest_kept = latest-unpin o f p;
  nslots_kept = nslots-unpin o f p;
}

pub set_sink-Keeps : (p : Pipeline) (s : ℕ) (v : Sink) → Keeps p (set_sink p s v)
set_sink-Keeps p s v = record { content_kept = λ i. refl; latest_kept = refl; nslots_kept = refl }

pub Keeps-free :
    {p q : Pipeline} → Keeps p q → (i : ℕ) → (p.slot i).state ≡ free → (q.slot i).state ≡ free
Keeps-free k i h = ap (λ c. c.4) (k.content_kept i) ∙ h

-- A sink's fields other than the pins and the waiting frame.
pub set_sink-Inv :
    (p : Pipeline) (s : ℕ) (v : Sink) (l : List Entry)
    → v.pins ≡ (p.sink s).pins
    → v.pending ≡ (p.sink s).pending
    → Inv p l
    → Inv (set_sink p s v) l
set_sink-Inv p s v l h k c = record {
  counts = set_sink-Counts p s v l h c.counts;
  waiting = λ t f e. ground (arith, c.waiting t f, k);
}

-- A sink's waiting frame is cleared, or put in the place of one that is not there.
pub set_pending-Inv :
    (p : Pipeline) (s : ℕ) (v : Sink) (l : List Entry)
    → v.pins ≡ (p.sink s).pins
    → ((f : ℕ) → v.pending ≡ some f → holds (waits s f) l ≡ true)
    → Counts p l
    → WaitsBut s p l
    → Inv (set_sink p s v) l
unfolding WaitsBut
set_pending-Inv p s v l h k c w = record {
  counts = set_sink-Counts p s v l h c;
  waiting = λ t f e. elim (ℕ_discrete t s) [
    | yes same_sink ↦ ground (arith, k f)
    | no other ↦ w t f other (ground arith)
  ];
}

pub pin-Inv :
    (e : Entry) (p : Pipeline) (l : List Entry)
    → (p.slot (place e)).state ≡ free
    → Inv p l
    → Inv (pin (owner e) (place e) p) (e ∷ l)
pin-Inv e p l h c = record {
  counts = pin-Counts e p l h c.counts;
  waiting = λ t f k. holds-cons (waits t f) e l (c.waiting t f (sym (pending-pin e p t) ∙ k));
}

-- A pin that no waiting frame has.
pub unpin-Inv :
    (e : Entry) (p : Pipeline) (l : List Entry)
    → ((t g : ℕ) → same (waits t g) e ≡ false)
    → holds e l ≡ true
    → Inv p l
    → Inv (unpin (owner e) (place e) p) (strike e l)
unpin-Inv e p l ne h c = record {
  counts = unpin-Counts e p l h c.counts;
  waiting = λ t f k.
      holds-strike e (waits t f) l (ne t f)
        (c.waiting t f (sym (pending-unpin (owner e) (place e) p t) ∙ k));
}

-- The pin of the frame that waits for `s`.
pub unpin-WaitsBut :
    (s g : ℕ) (p : Pipeline) (l : List Entry)
    → Inv p l
    → WaitsBut s (unpin (some s) g p) (strike (waits s g) l)
unfolding WaitsBut
unpin-WaitsBut s g p l c = λ t f ne k.
    holds-strike (waits s g) (waits t f) l (other_wait t s f g ne)
      (c.waiting t f (sym (pending-unpin (some s) g p t) ∙ k))
