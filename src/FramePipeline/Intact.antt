-- ===== src/FramePipeline/Intact.antt =====
-- What a consumer that holds a pin may rely on while the producer runs on.
use wio_lite_ai.Base.{
  ℕ, ◌≡◌, ◌≢◌, refl, sym, ap, ◌∙◌, arith, Bool, true, Option, none, some, List, [], ◌==◌, update-ne,
  inl, inr, ltb, ◌||◌, Bool-cases, subst,
}
use wio_lite_ai.FramePipeline.{
  free, filling, Geometry, Sink, Pipeline, pin, unpin, consumed, idle, put, stamp, publish, attach,
  detach, drop_pending, pin_latest, set_format, acquire, init, fresh, unlink, max_slots,
}
use wio_lite_ai.FramePipeline.Ledger.{Entry, waits, slot_pins, sink_pins, holds}
use wio_lite_ai.FramePipeline.Invariant.{Inv, place}
use wio_lite_ai.FramePipeline.Books.{
  content, Keeps, Keeps-refl, Keeps-trans, pin-Keeps, unpin-Keeps, set_sink-Keeps,
}
use wio_lite_ai.FramePipeline.Offers.{offer_all-Inv}
use wio_lite_ai.FramePipeline.Acquire.{acquire_frame}
use wio_lite_ai.FramePipeline.Preserve.{
  held-free, held-pinned, found-Reusable, stamp-free, stamp-Inv,
}
use wio_lite_ai.FramePipeline.Run.{
  Step, acquires, publishes, consumes, reader_puts, sink_puts, reader_gets, sink_gets, pins_latest,
  attaches, detaches, formats, Reach, Reach-Inv,
}

idle-Keeps : (o : Option ℕ) (s : ℕ) (p : Pipeline) → Keeps p (idle s o p).1
unfolding idle
idle-Keeps none s p = set_sink-Keeps p s _
idle-Keeps (some g) s p = set_sink-Keeps p s _

put-Keeps : (o : Option ℕ) (f : ℕ) (p : Pipeline) → Keeps p (put o f p).1
unfolding put
put-Keeps none f p = unpin-Keeps none f p
put-Keeps (some s) f p =
    Keeps-trans (unpin-Keeps (some s) f p)
      (idle-Keeps ((unpin (some s) f p).sink s).pending s (unpin (some s) f p))

latest-Keeps : (p : Pipeline) → Keeps p (pin_latest p).1
unfolding pin_latest
latest-Keeps p = by_latest p.latest
  where
    by_latest :
        (o : Option ℕ)
        → Keeps p
            (elim o as (λ _. Option ℕ × Pipeline) [
              | none ↦ (none, p)
              | some i ↦ (some i, pin none i p)
            ]).1
    by_latest none = Keeps-refl p
    by_latest (some i) = pin-Keeps none i p

drop_pending-Keeps : (o : Option ℕ) (s : ℕ) (p : Pipeline) → Keeps p (drop_pending o s p)
unfolding drop_pending
drop_pending-Keeps none s p = Keeps-refl p
drop_pending-Keeps (some f) s p =
    Keeps-trans (unpin-Keeps (some s) f p) (set_sink-Keeps (unpin (some s) f p) s _)

detach-content : (p : Pipeline) (s i : ℕ) → content ((detach p s).1.slot i) ≡ content (p.slot i)
unfolding detach
detach-content p s i =
    (drop_pending-Keeps (p.sink s).pending s (record p { sinks = unlink s p.sinks })).content_kept i

stamp-other :
    (p : Pipeline) (f bytes : ℕ) (g : Geometry) (i : ℕ)
    → i ≢ f
    → (stamp p f bytes g).slot i ≡ p.slot i
unfolding stamp
stamp-other p f bytes g i h = update-ne p.slot f _ i h

publish-content :
    (p : Pipeline) (f bytes : ℕ) (g : Geometry) (l : List Entry) (i : ℕ)
    → (p.slot f).state ≡ filling
    → Inv p l
    → i ≢ f
    → content ((publish p f bytes g).0.slot i) ≡ content (p.slot i)
unfolding publish stamp
publish-content p f bytes g l i h c ne =
    (offer_all-Inv p.sinks f (stamp p f bytes g) [] l (stamp-free p f bytes g)
        (stamp-Inv p f bytes g l h c)).1.content_kept
      i
    ∙ ap content (stamp-other p f bytes g i ne)

consumed-content :
    (s : ℕ) (b : Bool) (p : Pipeline) (i : ℕ)
    → content ((consumed s b p).slot i) ≡ content (p.slot i)
unfolding consumed
consumed-content s b p i = refl

attach-content : (p : Pipeline) (s i : ℕ) → content ((attach p s).slot i) ≡ content (p.slot i)
unfolding attach
attach-content p s i = refl

format-content :
    (fmt w h : ℕ) (p : Pipeline) (i : ℕ)
    → content ((set_format p fmt w h).slot i) ≡ content (p.slot i)
unfolding set_format
format-content fmt w h p i = refl

-- A slot with a pin is not handed out.
pub held-not-acquired :
    (e : Entry) (p : Pipeline) (l : List Entry)
    → holds e l ≡ true
    → Inv p l
    → (acquire p).0 ≢ some (place e)
held-not-acquired e p l h c x =
    let r = found-Reusable p p.nslots (acquire p).0 (acquire_frame p).0 (place e) x in
    omega (arith, r.no_pins, held-pinned e p l h c.counts)

pub Step-content :
    {p q : Pipeline} {l m : List Entry}
    → Step p l q m
    → Inv p l
    → (e : Entry) → holds e l ≡ true
    → content (q.slot (place e)) ≡ content (p.slot (place e))
Step-content {p} {l} acquires c e h =
    ap content ((acquire_frame p).3 (place e) (held-not-acquired e p l h c))
Step-content {p} {l} (publishes f bytes g k) c e h =
    publish-content p f bytes g l (place e) k c
      (λ x. free≢filling (sym (held-free e p l h c) ∙ rw x k))
  where
    free≢filling : free ≢ filling
    free≢filling y = cc
Step-content {p} {l} (consumes s b) c e h = consumed-content s b p (place e)
Step-content {p} {l} (reader_puts f k) c e h = (put-Keeps none f p).content_kept (place e)
Step-content {p} {l} (sink_puts s f k) c e h = (put-Keeps (some s) f p).content_kept (place e)
Step-content {p} {l} (reader_gets d k) c e h = (pin-Keeps none (place d) p).content_kept (place e)
Step-content {p} {l} (sink_gets s d k) c e h =
    (pin-Keeps (some s) (place d) p).content_kept (place e)
Step-content {p} {l} (pins_latest i k) c e h = (latest-Keeps p).content_kept (place e)
Step-content {p} {l} (attaches s room off k) c e h = attach-content p s (place e)
Step-content {p} {l} (detaches s) c e h = detach-content p s (place e)
Step-content {p} {l} (formats fmt w k) c e h = format-content fmt w k p (place e)

-- A store of sinks that no pipeline has used.
abbrev pub Quiet : (ℕ → Sink) → Type 0
Quiet sink = (s : ℕ) → ((sink s).pins ≡ 0) × ((sink s).pending ≡ none)

fresh-Inv : (sink : ℕ → Sink) (mem size n : ℕ) → Quiet sink → Inv (fresh sink mem size n) []
unfolding slot_pins sink_pins
fresh-Inv sink mem size n quiet = record {
  counts = record {
    refs = λ i. refl;
    pins = λ s. (quiet s).0;
    unpinned = λ i e. refl;
    published = λ i e. refl;
  };
  waiting = λ s f e. cc ((quiet s).1);
}

init-fresh :
    (sink : ℕ → Sink) (mem size n : ℕ) (p : Pipeline)
    → init sink mem size n ≡ some p
    → fresh sink mem size n ≡ p
unfolding init
init-fresh sink mem size n p h = elim (Bool-cases (size == 0 || n == 0 || ltb max_slots n)) [
  | inl k ↦ ground (arith, h, k)
  | inr k ↦ ground (arith, h, k)
]

init-Inv :
    (sink : ℕ → Sink) (mem size n : ℕ) (p : Pipeline)
    → Quiet sink
    → init sink mem size n ≡ some p
    → Inv p []
init-Inv sink mem size n p quiet h =
    subst (λ q. Inv q []) (init-fresh sink mem size n p h) (fresh-Inv sink mem size n quiet)

-- Whether a sink's waiting frame, where it has one, is in the ledger.
abbrev pub covered : ℕ → Option ℕ → List Entry → Bool
covered s none l = true
covered s (some f) l = holds (waits s f) l

covered-Inv :
    (s : ℕ) (o : Option ℕ) (q : Pipeline) (l : List Entry)
    → (q.sink s).pending ≡ o
    → Inv q l
    → covered s o l ≡ true
covered-Inv s none q l h c = refl
covered-Inv s (some f) q l h c = c.waiting s f h

-- In every state that the calls can reach from `init`, each call made by one who may make it and
-- the store of the sinks unused at first, the reference count of a slot is the number of pins that
-- are out on it, a sink's own count is the number of those that are its own, and the frame that a
-- busy sink is to have next is pinned for it.
pub refcounts_exact :
    (sink : ℕ → Sink) (mem size n : ℕ) (p q : Pipeline) (l : List Entry) (i s : ℕ)
    → Quiet sink
    → init sink mem size n ≡ some p
    → Reach p [] q l
    → ((q.slot i).refcount ≡ slot_pins i l)
      × ((q.sink s).pins ≡ sink_pins s l)
      × (covered s (q.sink s).pending l ≡ true)
refcounts_exact sink mem size n p q l i s quiet h r =
    let c = Reach-Inv r (init-Inv sink mem size n p quiet h) in
    (c.counts.refs i, c.counts.pins s, covered-Inv s (q.sink s).pending q l refl c)

-- In every state that the calls can reach from `init`, each call made by one who may make it and
-- the store of the sinks unused at first: a slot on which a pin is out is not being filled and is
-- not what `acquire` hands out next, and the next call, whichever it is, changes nothing of the frame in it: its
-- address, length, generation, geometry and state stay as they are.
pub pinned_intact :
    (sink : ℕ → Sink) (mem size n : ℕ) (p q r : Pipeline) (l m : List Entry) (e : Entry)
    → Quiet sink
    → init sink mem size n ≡ some p
    → Reach p [] q l
    → holds e l ≡ true
    → Step q l r m
    → ((q.slot (place e)).state ≡ free)
      × ((acquire q).0 ≢ some (place e))
      × (content (r.slot (place e)) ≡ content (q.slot (place e)))
pinned_intact sink mem size n p q r l m e quiet h reach k s =
    let c = Reach-Inv reach (init-Inv sink mem size n p quiet h) in
    (held-free e q l k c, held-not-acquired e q l k c, Step-content s c e k)
