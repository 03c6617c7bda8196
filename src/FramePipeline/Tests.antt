-- ===== src/FramePipeline/Tests.antt =====
-- A pipeline of two slots with one sink, which is given the first frame: a run of
-- svc/frame_pipeline.c on which the theorems are applied.
use wio_lite_ai.Base.{ℕ, ◌≡◌, refl, none, some, [], ◌∷◌, true, false, ◌≢◌}
use wio_lite_ai.FramePipeline.{
  free, latest_only, Sink, Pipeline, init, fresh, acquire, publish, stamp, attach, has_room,
  offer_all, offer, offer_by, start, pin, find_slot, is_reusable, take_slot, no_geometry,
}
use wio_lite_ai.FramePipeline.Ledger.{given, slot_pins, sink_pins, holds}
use wio_lite_ai.FramePipeline.Offers.{book_all, book, booked}
use wio_lite_ai.FramePipeline.Run.{is_attached, Reach, here, next, acquires, publishes, attaches}
use wio_lite_ai.FramePipeline.Intact.{Quiet, covered, pinned_intact, refcounts_exact}
use wio_lite_ai.FramePipeline.Books.{content}
use wio_lite_ai.FramePipeline.Acquire.{acquire_lem, First, Acquired}

abbrev unused : Sink
unused = record {
  policy = latest_only;
  delivered = 0;
  dropped = 0;
  errors = 0;
  pending = none;
  busy = false;
  pins = 0;
}

abbrev no_sinks : ℕ → Sink
no_sinks s = unused

abbrev two_slots : Pipeline
two_slots = fresh no_sinks 4096 64 2

abbrev attached : Pipeline
attached = attach two_slots 7

abbrev filled : Pipeline
filled = (acquire attached).1

abbrev shown : Pipeline
shown = (publish filled 0 48 no_geometry).0

no_sinks-Quiet : Quiet no_sinks
no_sinks-Quiet s = (refl, refl)

started : init no_sinks 4096 64 2 ≡ some two_slots
unfolding init
started = refl

run_shown : Reach two_slots [] shown (given 7 0 ∷ [])
unfolding attach acquire publish stamp find_slot is_reusable take_slot offer_all offer offer_by
    start pin sink_pins has_room is_attached book_all book booked
run_shown =
    next (next (next here (attaches 7 refl refl refl)) acquires) (publishes 0 48 no_geometry refl)

shown_held : holds (given 7 0) (given 7 0 ∷ []) ≡ true
unfolding holds
shown_held = refl

refcounts_exact_example :
    ((shown.slot 0).refcount ≡ slot_pins 0 (given 7 0 ∷ []))
    × ((shown.sink 7).pins ≡ sink_pins 7 (given 7 0 ∷ []))
    × (covered 7 (shown.sink 7).pending (given 7 0 ∷ []) ≡ true)
refcounts_exact_example =
    refcounts_exact no_sinks 4096 64 2 two_slots shown (given 7 0 ∷ []) 0 7 no_sinks-Quiet started
      run_shown

pinned_intact_example :
    ((shown.slot 0).state ≡ free)
    × ((acquire shown).0 ≢ some 0)
    × (content ((acquire shown).1.slot 0) ≡ content (shown.slot 0))
pinned_intact_example =
    pinned_intact no_sinks 4096 64 2 two_slots shown (acquire shown).1 (given 7 0 ∷ [])
      (given 7 0 ∷ []) (given 7 0) no_sinks-Quiet started run_shown shown_held acquires

-- The second frame is acquired beside the first, and a third is not.
acquired_second : (acquire shown).0 ≡ some 1
unfolding attach acquire publish stamp find_slot is_reusable take_slot offer_all offer offer_by
    start pin
acquired_second = refl

acquire_lem_example :
    First shown 0 2 (acquire shown).0
    × Acquired shown (acquire shown).0 (acquire shown).1
    × ((acquire shown).1.sink ≡ shown.sink)
    × ((acquire shown).1.latest ≡ shown.latest)
unfolding attach acquire publish stamp find_slot is_reusable take_slot offer_all offer offer_by
    start pin
acquire_lem_example = acquire_lem shown
