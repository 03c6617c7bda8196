-- ===== src/FramePipeline/Run.antt =====
-- The operations as steps of the pipeline and its ledger, with what each caller must hold.

use wio_lite_ai.Base.{
  ℕ, ◌≡◌, refl, ◌∙◌, Bool, true, false, Option, none, some, List, [], ◌∷◌, ◌==◌, if◌then◌else◌,
}
use wio_lite_ai.FramePipeline.{
  filling, Geometry, Pipeline, pin, consumed, put, stamp, publish, attach, detach, pin_latest,
  set_format, acquire, has_room,
}
use wio_lite_ai.FramePipeline.Ledger.{Entry, reader, given, sink_pins, holds, strike}
use wio_lite_ai.FramePipeline.Invariant.{Inv, place}
use wio_lite_ai.FramePipeline.Books.{struck, pin-Inv}
use wio_lite_ai.FramePipeline.Offers.{book_all}
use wio_lite_ai.FramePipeline.Preserve.{
  handed, held-free, acquire-Inv, publish-Inv, consumed-Inv, attach-Inv, detach-Inv, reader_put-Inv,
  sink_put-Inv,
}

-- Whether a sink is on the list.
unfoldable pub is_attached : ℕ → List ℕ → Bool
is_attached s [] = false
is_attached s (x ∷ xs) = if x == s then true else is_attached s xs

-- One call, from a pipeline and its ledger to another.
pub data Step : Pipeline → List Entry → Pipeline → List Entry → Type 0 where
  acquires : {p : Pipeline} {l : List Entry} → Step p l (acquire p).1 l
  -- The producer publishes a slot that it was given to fill.
  publishes :
      {p : Pipeline} {l : List Entry} (f bytes : ℕ) (g : Geometry)
      → (p.slot f).state ≡ filling
      → Step p l (publish p f bytes g).0 (book_all p.sinks f (stamp p f bytes g, []) l)
  consumes :
      {p : Pipeline} {l : List Entry} (s : ℕ) (failed : Bool) → Step p l (consumed s failed p) l
  -- A pin is put back by the one who was given it.
  reader_puts :
      {p : Pipeline} {l : List Entry} (f : ℕ)
      → holds (reader f) l ≡ true
      → Step p l (put none f p).1 (strike (reader f) l)
  sink_puts :
      {p : Pipeline} {l : List Entry} (s f : ℕ)
      → holds (given s f) l ≡ true
      → Step p l (put (some s) f p).1 (handed (p.sink s).pending s (strike (given s f) l))
  -- One more pin of a frame that somebody holds.
  reader_gets :
      {p : Pipeline} {l : List Entry} (e : Entry)
      → holds e l ≡ true
      → Step p l (pin none (place e) p) (reader (place e) ∷ l)
  sink_gets :
      {p : Pipeline} {l : List Entry} (s : ℕ) (e : Entry)
      → holds e l ≡ true
      → Step p l (pin (some s) (place e) p) (given s (place e) ∷ l)
  pins_latest :
      {p : Pipeline} {l : List Entry} (i : ℕ)
      → p.latest ≡ some i
      → Step p l (pin_latest p).1 (reader i ∷ l)
  -- A sink that is on the list or still has frames is not attached again.
  attaches :
      {p : Pipeline} {l : List Entry} (s : ℕ)
      → has_room p ≡ true
      → is_attached s p.sinks ≡ false
      → sink_pins s l ≡ 0
      → Step p l (attach p s) l
  detaches :
      {p : Pipeline} {l : List Entry} (s : ℕ)
      → Step p l (detach p s).1 (struck (p.sink s).pending s l)
  formats : {p : Pipeline} {l : List Entry} (fmt w h : ℕ) → Step p l (set_format p fmt w h) l

pub data Reach (p : Pipeline) (l : List Entry) : Pipeline → List Entry → Type 0 where
  here : Reach p l p l
  next : {q r : Pipeline} {m n : List Entry} → Reach p l q m → Step q m r n → Reach p l r n

latest-pinned :
    (o : Option ℕ) (i : ℕ) (p : Pipeline) (l : List Entry)
    → p.latest ≡ o
    → o ≡ some i
    → Inv p l
    → Inv (pin_latest p).1 (reader i ∷ l)
unfolding pin_latest
latest-pinned none i p l h e c = cc
latest-pinned (some j) i p l h e c =
    let ij : j ≡ i = cc in
    rw (h, ij, pin_latest) (pin-Inv (reader i) p l (c.counts.published i (h ∙ e)) c)

formats-Inv : (fmt w h : ℕ) (p : Pipeline) (l : List Entry) → Inv p l → Inv (set_format p fmt w h) l
unfolding set_format
formats-Inv fmt w h p l c = record {
  counts = record {
    refs = c.counts.refs;
    pins = c.counts.pins;
    unpinned = c.counts.unpinned;
    published = c.counts.published;
  };
  waiting = c.waiting;
}

-- Every operation, on each of its branches, keeps the reference counts and the sinks' pins equal
-- to the numbers of the ledger's entries, with the slots being filled unpinned, the latest frame
-- not being filled, and every waiting frame pinned for its sink.
pub Step-Inv : {p q : Pipeline} {l m : List Entry} → Step p l q m → Inv p l → Inv q m
Step-Inv {p} {l} acquires c = acquire-Inv p l c
Step-Inv {p} {l} (publishes f bytes g h) c = publish-Inv p f bytes g l h c
Step-Inv {p} {l} (consumes s b) c = consumed-Inv s b p l c
Step-Inv {p} {l} (reader_puts f h) c = reader_put-Inv f p l h c
Step-Inv {p} {l} (sink_puts s f h) c = sink_put-Inv s f p l h c
Step-Inv {p} {l} (reader_gets e h) c = pin-Inv (reader (place e)) p l (held-free e p l h c) c
Step-Inv {p} {l} (sink_gets s e h) c = pin-Inv (given s (place e)) p l (held-free e p l h c) c
Step-Inv {p} {l} (pins_latest i h) c = latest-pinned p.latest i p l refl h c
Step-Inv {p} {l} (attaches s room off h) c = attach-Inv p s l h c
Step-Inv {p} {l} (detaches s) c = detach-Inv p s l c
Step-Inv {p} {l} (formats fmt w h) c = formats-Inv fmt w h p l c

pub Reach-Inv :
    {p : Pipeline} {l : List Entry} {q : Pipeline} {m : List Entry}
    → Reach p l q m
    → Inv p l
    → Inv q m
Reach-Inv here c = c
Reach-Inv (next r s) c = Step-Inv s (Reach-Inv r c)
