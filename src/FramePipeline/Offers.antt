-- ===== src/FramePipeline/Offers.antt =====
-- A published frame on its way to the sinks: what `publish` adds to the ledger.
use native.Mathlib.Decide.{ℕ_discrete}
use wio_lite_ai.Base.{
  ℕ, ◌≡◌, refl, sym, ◌∙◌, arith, Bool, true, false, Option, none, some, List, [], ◌∷◌,
}
use wio_lite_ai.FramePipeline.{
  free, Policy, drop, latest_only, Sink, Pipeline, set_sink, pin, unpin, supersede, wait, start,
  refuse, offer_by, offer, offer_all,
}
use wio_lite_ai.FramePipeline.Ledger.{Entry, given, waits}
use wio_lite_ai.FramePipeline.Invariant.{
  Counts, Inv, pin-Counts, unpin-Counts, set_sink-Counts, pending-pin,
}
use wio_lite_ai.FramePipeline.Books.{
  WaitsBut, struck, Keeps, Keeps-refl, Keeps-trans, pin-Keeps, unpin-Keeps, set_sink-Keeps,
  Keeps-free, set_sink-Inv, pin-Inv, unpin-WaitsBut, holds-first, holds-cons,
}

-- The ledger after a sink has been offered the frame in slot `f`.
unfoldable pub booked : Bool → Policy → Option ℕ → ℕ → ℕ → List Entry → List Entry
booked true drop o s f l = l
booked true latest_only o s f l = waits s f ∷ struck o s l
booked false policy o s f l = given s f ∷ l

unfoldable pub book : Pipeline → ℕ → ℕ → List Entry → List Entry
unfolding booked
book p s f l = booked (p.sink s).busy (p.sink s).policy (p.sink s).pending s f l

unfoldable pub book_all : List ℕ → ℕ → Pipeline × List ℕ → List Entry → List Entry
unfolding book
book_all [] f d l = l
book_all (s ∷ ss) f d l = book_all ss f (offer s f d) (book d.0 s f l)

-- After an older waiting frame has gone.
record Superseded (s : ℕ) (p q : Pipeline) (l : List Entry) : Type 0 where
  counts_after : Counts q l
  waits_after : WaitsBut s q l
  keeps_after : Keeps p q

supersede_lem :
    (o : Option ℕ) (s f : ℕ) (p : Pipeline) (l : List Entry)
    → (p.sink s).pending ≡ o
    → Inv p l
    → Superseded s p (supersede o s f p) (struck o s l)
unfolding supersede WaitsBut
supersede_lem none s f p l e c = record {
  counts_after = c.counts;
  waits_after = λ t g ne k. c.waiting t g k;
  keeps_after = Keeps-refl p;
}
supersede_lem (some g) s f p l e c =
    let q = unpin (some s) g p in
    record {
      counts_after =
          set_sink-Counts q s _ _ refl (unpin-Counts (waits s g) p l (c.waiting s g e) c.counts);
      waits_after = λ t h ne k. unpin-WaitsBut s g p l c t h ne (ground (arith, k, ne));
      keeps_after = Keeps-trans (unpin-Keeps (some s) g p) (set_sink-Keeps q s _);
    }

wait-Keeps : (s f : ℕ) (p : Pipeline) (l : List Entry) → Inv p l → Keeps p (wait s f p)
unfolding wait
wait-Keeps s f p l c =
    let q = supersede (p.sink s).pending s f p in
    let r = set_sink q s (record (q.sink s) { pending = some f }) in
    Keeps-trans
      (Keeps-trans (supersede_lem (p.sink s).pending s f p l refl c).keeps_after
        (set_sink-Keeps q s _))
      (pin-Keeps (some s) f r)

-- The pin for a frame that `s` has just been noted to wait for.
pin_pending-Inv :
    (s f : ℕ) (v : Sink) (p : Pipeline) (l : List Entry)
    → v.pins ≡ (p.sink s).pins
    → v.pending ≡ some f
    → (p.slot f).state ≡ free
    → Counts p l
    → WaitsBut s p l
    → Inv (pin (some s) f (set_sink p s v)) (waits s f ∷ l)
unfolding WaitsBut
pin_pending-Inv s f v p l h k fr c w =
    let q = set_sink p s v in
    record {
      counts = pin-Counts (waits s f) q l fr (set_sink-Counts p s v l h c);
      waiting = λ t g e.
          let e' : (q.sink t).pending ≡ some g = sym (pending-pin (waits s f) q t) ∙ e in
          elim (ℕ_discrete t s) [
            | yes same_sink ↦
                let fg : g ≡ f = ground (arith, k, e', same_sink) in
                rw (same_sink, fg) (holds-first s f l)
            | no other ↦
                holds-cons (waits t g) (waits s f) l (w t g other (ground (arith, e', other)))
          ];
    }

wait-Inv :
    (s f : ℕ) (p : Pipeline) (l : List Entry)
    → (p.slot f).state ≡ free
    → Inv p l
    → Inv (wait s f p) (waits s f ∷ struck (p.sink s).pending s l)
unfolding wait
wait-Inv s f p l h c =
    let k = supersede_lem (p.sink s).pending s f p l refl c in
    let q = supersede (p.sink s).pending s f p in
    pin_pending-Inv s f (record (q.sink s) { pending = some f }) q (struck (p.sink s).pending s l)
      refl refl (Keeps-free k.keeps_after f h) k.counts_after k.waits_after

start-Inv :
    (s f : ℕ) (p : Pipeline) (l : List Entry)
    → (p.slot f).state ≡ free
    → Inv p l
    → Inv (start s f p) (given s f ∷ l)
unfolding start
start-Inv s f p l h c =
    pin-Inv (given s f) (set_sink p s (record (p.sink s) { busy = true })) l h
      (set_sink-Inv p s (record (p.sink s) { busy = true }) l refl refl c)

start-Keeps : (s f : ℕ) (p : Pipeline) → Keeps p (start s f p)
unfolding start
start-Keeps s f p =
    Keeps-trans (set_sink-Keeps p s _)
      (pin-Keeps (some s) f (set_sink p s (record (p.sink s) { busy = true })))

refuse-Inv : (s : ℕ) (p : Pipeline) (l : List Entry) → Inv p l → Inv (refuse s p) l
unfolding refuse
refuse-Inv s p l c = set_sink-Inv p s _ l refl refl c

refuse-Keeps : (s : ℕ) (p : Pipeline) → Keeps p (refuse s p)
unfolding refuse
refuse-Keeps s p = set_sink-Keeps p s _

offer_by-Inv :
    (b : Bool) (k : Policy) (s f : ℕ) (p : Pipeline) (ds : List ℕ) (l : List Entry)
    → (p.slot f).state ≡ free
    → Inv p l
    → Inv (offer_by b k s f (p, ds)).0 (booked b k (p.sink s).pending s f l)
      × Keeps p (offer_by b k s f (p, ds)).0
unfolding offer_by booked
offer_by-Inv true drop s f p ds l h c = (refuse-Inv s p l c, refuse-Keeps s p)
offer_by-Inv true latest_only s f p ds l h c = (wait-Inv s f p l h c, wait-Keeps s f p l c)
offer_by-Inv false k s f p ds l h c = (start-Inv s f p l h c, start-Keeps s f p)

pub offer_all-Inv :
    (ss : List ℕ) (f : ℕ) (p : Pipeline) (ds : List ℕ) (l : List Entry)
    → (p.slot f).state ≡ free
    → Inv p l
    → Inv (offer_all ss f (p, ds)).0 (book_all ss f (p, ds) l) × Keeps p (offer_all ss f (p, ds)).0
unfolding offer_all book_all offer book
offer_all-Inv [] f p ds l h c = (c, Keeps-refl p)
offer_all-Inv (s ∷ ss) f p ds l h c =
    let d = offer s f (p, ds) in
    let (c', k) = offer_by-Inv (p.sink s).busy (p.sink s).policy s f p ds l h c in
    let (c'', k') = offer_all-Inv ss f d.0 d.1 (book p s f l) (Keeps-free k f h) c' in
    (c'', Keeps-trans k k')
