-- ===== src/FramePipeline/Invariant.antt =====
-- The reference counts agree with the ledger of the pins that are out, and nobody holds a pin on a
-- slot that the producer may be writing.
use native.Mathlib.Decide.{ℕ_discrete}
use wio_lite_ai.Base.{
  ℕ, ◌+◌, ◌≤◌, ◌<◌, ◌≡◌, ◌≢◌, refl, sym, ap, ◌∙◌, arith, true, Option, none, some, List, ◌∷◌,
}
use wio_lite_ai.FramePipeline.{free, filling, Sink, Pipeline, set_sink, pin, unpin}
use wio_lite_ai.FramePipeline.Ledger.{
  Entry, reader, given, waits, on_slot, by_sink, slot_pins, sink_pins, holds, strike,
  slot_pins-strike, sink_pins-strike,
}

-- The counts; a slot that is being filled has no pins, and the latest frame is not being filled.
pub record Counts (p : Pipeline) (l : List Entry) : Type 0 where
  pub refs : (i : ℕ) → (p.slot i).refcount ≡ slot_pins i l
  pub pins : (s : ℕ) → (p.sink s).pins ≡ sink_pins s l
  pub unpinned : (i : ℕ) → (p.slot i).state ≡ filling → (p.slot i).refcount ≡ 0
  pub published : (i : ℕ) → p.latest ≡ some i → (p.slot i).state ≡ free

-- The frame that waits for a sink is pinned for it.
pub record Inv (p : Pipeline) (l : List Entry) : Type 0 where
  pub counts : Counts p l
  pub waiting : (s f : ℕ) → (p.sink s).pending ≡ some f → holds (waits s f) l ≡ true

abbrev pub owner : Entry → Option ℕ
owner (reader f) = none
owner (given s f) = some s
owner (waits s f) = some s

abbrev pub place : Entry → ℕ
place (reader f) = f
place (given s f) = f
place (waits s f) = f

refcount-pin :
    (e : Entry) (p : Pipeline) (i : ℕ)
    → ((pin (owner e) (place e) p).slot i).refcount ≡ on_slot i e + (p.slot i).refcount
unfolding pin
refcount-pin (reader f) p i = ground arith
refcount-pin (given s f) p i = ground arith
refcount-pin (waits s f) p i = ground arith

pins-pin :
    (e : Entry) (p : Pipeline) (t : ℕ)
    → ((pin (owner e) (place e) p).sink t).pins ≡ by_sink t e + (p.sink t).pins
unfolding pin
pins-pin (reader f) p t = ground arith
pins-pin (given s f) p t = ground arith
pins-pin (waits s f) p t = ground arith

pub state-pin :
    (e : Entry) (p : Pipeline) (i : ℕ)
    → ((pin (owner e) (place e) p).slot i).state ≡ (p.slot i).state
unfolding pin
state-pin (reader f) p i = ground arith
state-pin (given s f) p i = ground arith
state-pin (waits s f) p i = ground arith

pub pending-pin :
    (e : Entry) (p : Pipeline) (t : ℕ)
    → ((pin (owner e) (place e) p).sink t).pending ≡ (p.sink t).pending
unfolding pin
pending-pin (reader f) p t = refl
pending-pin (given s f) p t = ground arith
pending-pin (waits s f) p t = ground arith

pub latest-pin : (o : Option ℕ) (f : ℕ) (p : Pipeline) → (pin o f p).latest ≡ p.latest
unfolding pin
latest-pin none f p = refl
latest-pin (some s) f p = refl

refcount-unpin :
    (e : Entry) (p : Pipeline) (i : ℕ)
    → 0 < (p.slot (place e)).refcount
    → (p.slot i).refcount ≡ on_slot i e + ((unpin (owner e) (place e) p).slot i).refcount
unfolding unpin
refcount-unpin (reader f) p i h = ground arith
refcount-unpin (given s f) p i h = ground arith
refcount-unpin (waits s f) p i h = ground arith

pins-unpin :
    (e : Entry) (p : Pipeline) (t : ℕ)
    → by_sink t e ≤ (p.sink t).pins
    → (p.sink t).pins ≡ by_sink t e + ((unpin (owner e) (place e) p).sink t).pins
unfolding unpin
pins-unpin (reader f) p t h = omega arith
pins-unpin (given s f) p t h = ground arith
pins-unpin (waits s f) p t h = ground arith

pub state-unpin :
    (e : Entry) (p : Pipeline) (i : ℕ)
    → ((unpin (owner e) (place e) p).slot i).state ≡ (p.slot i).state
unfolding unpin
state-unpin (reader f) p i = ground arith
state-unpin (given s f) p i = ground arith
state-unpin (waits s f) p i = ground arith

pub pending-unpin :
    (o : Option ℕ) (f : ℕ) (p : Pipeline) (t : ℕ)
    → ((unpin o f p).sink t).pending ≡ (p.sink t).pending
unfolding unpin
pending-unpin none f p t = refl
pending-unpin (some s) f p t = ground arith

pub latest-unpin : (o : Option ℕ) (f : ℕ) (p : Pipeline) → (unpin o f p).latest ≡ p.latest
unfolding unpin
latest-unpin none f p = refl
latest-unpin (some s) f p = refl

pub on_slot-place : (e : Entry) → on_slot (place e) e ≡ 1
on_slot-place (reader f) = ground arith
on_slot-place (given s f) = ground arith
on_slot-place (waits s f) = ground arith

on_slot-ne : (i : ℕ) (e : Entry) → i ≢ place e → on_slot i e ≡ 0
on_slot-ne i (reader f) h = ground arith
on_slot-ne i (given s f) h = ground arith
on_slot-ne i (waits s f) h = ground arith

free≢filling : free ≢ filling
free≢filling e = cc

pub pin-Counts :
    (e : Entry) (p : Pipeline) (l : List Entry)
    → (p.slot (place e)).state ≡ free
    → Counts p l
    → Counts (pin (owner e) (place e) p) (e ∷ l)
unfolding slot_pins sink_pins
pin-Counts e p l h c = record {
  refs = λ i. refcount-pin e p i ∙ ap (λ n. on_slot i e + n) (c.refs i);
  pins = λ t. pins-pin e p t ∙ ap (λ n. by_sink t e + n) (c.pins t);
  unpinned = λ i x. elim (ℕ_discrete i (place e)) [
    | yes same_place ↦
        absurd (free≢filling (sym h ∙ (rw same_place at (sym (state-pin e p i) ∙ x))))
    | no other ↦
        omega (
          arith,
          refcount-pin e p i,
          on_slot-ne i e other,
          c.unpinned i (sym (state-pin e p i) ∙ x),
        )
  ];
  published = λ i x. state-pin e p i ∙ c.published i (sym (latest-pin (owner e) (place e) p) ∙ x);
}

pub unpin-Counts :
    (e : Entry) (p : Pipeline) (l : List Entry)
    → holds e l ≡ true
    → Counts p l
    → Counts (unpin (owner e) (place e) p) (strike e l)
unpin-Counts e p l h c = record {
  refs = λ i. omega (arith, refcount-unpin e p i pinned, c.refs i, slot_pins-strike i e l h);
  pins = λ t. omega (
    arith,
    pins-unpin e p t (omega (arith, c.pins t, sink_pins-strike t e l h)),
    c.pins t,
    sink_pins-strike t e l h,
  );
  unpinned =
      λ i x. omega (arith, refcount-unpin e p i pinned, c.unpinned i (sym (state-unpin e p i) ∙ x));
  published =
      λ i x. state-unpin e p i ∙ c.published i (sym (latest-unpin (owner e) (place e) p) ∙ x);
}
  where
    pinned : 0 < (p.slot (place e)).refcount
    pinned = omega (arith, c.refs (place e), slot_pins-strike (place e) e l h, on_slot-place e)

-- A change to a sink that leaves its pins alone.
pub set_sink-Counts :
    (p : Pipeline) (s : ℕ) (v : Sink) (l : List Entry)
    → v.pins ≡ (p.sink s).pins
    → Counts p l
    → Counts (set_sink p s v) l
set_sink-Counts p s v l h c = record {
  refs = c.refs;
  pins = λ t. ground (arith, c.pins t, h);
  unpinned = c.unpinned;
  published = c.published;
}
