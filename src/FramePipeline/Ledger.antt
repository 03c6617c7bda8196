-- ===== src/FramePipeline/Ledger.antt =====
-- The pins that are out, kept beside the pipeline as a ledger: one entry for each pin that a sink
-- or a reader has been given and has not put back, and for each frame that waits for a busy sink.
use wio_lite_ai.Base.{
  ℕ, ◌+◌, ◌≡◌, arith, Bool, true, false, ◌&&◌, List, [], ◌∷◌, ◌==◌, if◌then◌else◌,
}

pub data Entry : Type 0 where
  -- A reader with no sink holds the slot.
  reader : (slot : ℕ) → Entry
  -- A sink holds the slot that it was given.
  given : (sink slot : ℕ) → Entry
  -- The slot waits as the pending frame of a busy sink.
  waits : (sink slot : ℕ) → Entry

abbrev pub on_slot : ℕ → Entry → ℕ
on_slot i (reader f) = if f == i then 1 else 0
on_slot i (given s f) = if f == i then 1 else 0
on_slot i (waits s f) = if f == i then 1 else 0

abbrev pub by_sink : ℕ → Entry → ℕ
by_sink t (reader f) = 0
by_sink t (given s f) = if s == t then 1 else 0
by_sink t (waits s f) = if s == t then 1 else 0

abbrev pub same : Entry → Entry → Bool
same (reader f) (reader g) = f == g
same (given s f) (given t g) = s == t && f == g
same (waits s f) (waits t g) = s == t && f == g
same _ _ = false

unfoldable pub slot_pins : ℕ → List Entry → ℕ
slot_pins i [] = 0
slot_pins i (e ∷ es) = on_slot i e + slot_pins i es

unfoldable pub sink_pins : ℕ → List Entry → ℕ
sink_pins t [] = 0
sink_pins t (e ∷ es) = by_sink t e + sink_pins t es

unfoldable pub holds : Entry → List Entry → Bool
holds e [] = false
holds e (x ∷ xs) = if same e x then true else holds e xs

-- The ledger less one entry like `e`.
unfoldable pub strike : Entry → List Entry → List Entry
strike e [] = []
strike e (x ∷ xs) = if same e x then xs else x ∷ strike e xs

on_slot-same : (i : ℕ) (e x : Entry) → same e x ≡ true → on_slot i e ≡ on_slot i x
on_slot-same i (reader f) (reader g) h = ground arith
on_slot-same i (given s f) (given t g) h = ground arith
on_slot-same i (waits s f) (waits t g) h = ground arith
on_slot-same i _ _ h = cc

by_sink-same : (t : ℕ) (e x : Entry) → same e x ≡ true → by_sink t e ≡ by_sink t x
by_sink-same i (reader f) (reader g) h = ground arith
by_sink-same i (given s f) (given t g) h = ground arith
by_sink-same i (waits s f) (waits t g) h = ground arith
by_sink-same i _ _ h = cc

pub slot_pins-strike :
    (i : ℕ) (e : Entry) (l : List Entry)
    → holds e l ≡ true
    → slot_pins i l ≡ on_slot i e + slot_pins i (strike e l)
unfolding slot_pins holds strike
slot_pins-strike i e [] h = cc
slot_pins-strike i e (x ∷ xs) h = ground (arith, on_slot-same i e x, slot_pins-strike i e xs)

pub sink_pins-strike :
    (t : ℕ) (e : Entry) (l : List Entry)
    → holds e l ≡ true
    → sink_pins t l ≡ by_sink t e + sink_pins t (strike e l)
unfolding sink_pins holds strike
sink_pins-strike t e [] h = cc
sink_pins-strike t e (x ∷ xs) h = ground (arith, by_sink-same t e x, sink_pins-strike t e xs)

same_trans : (e x y : Entry) → same e x ≡ true → same y x ≡ true → same y e ≡ true
same_trans (reader f) (reader g) (reader k) h a = ground arith
same_trans (given s f) (given t g) (given u k) h a = ground arith
same_trans (waits s f) (waits t g) (waits u k) h a = ground arith
same_trans _ _ _ h a = ground arith

-- Striking an entry leaves those that differ from it.
pub holds-strike :
    (e y : Entry) (l : List Entry)
    → same y e ≡ false
    → holds y l ≡ true
    → holds y (strike e l) ≡ true
unfolding holds strike
holds-strike e y [] ne h = h
holds-strike e y (x ∷ xs) ne h = ground (arith, same_trans e x y, holds-strike e y xs ne)
