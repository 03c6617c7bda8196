-- ===== src/FramePipeline/Acquire.antt =====
-- What the producer is given to fill.
use native.Mathlib.Decide.{ℕ_discrete}
use wio_lite_ai.Base.{
  ℕ, zero, suc, ◌+◌, ◌≤◌, ◌<◌, ◌≡◌, ◌≢◌, refl, sym, ap, arith, update, update_self, update-ne, inl,
  inr, true, false, Bool-cases, Option, none, some,
}
use wio_lite_ai.FramePipeline.{
  SlotState, free, filling, Pipeline, bump, is_free, is_index, is_reusable, find_slot, take_slot,
  acquire,
}

-- A slot that the producer may write to: not being filled, pinned by nobody, not the latest.
pub record Reusable (p : Pipeline) (i : ℕ) : Type 0 where
  pub is_free_slot : (p.slot i).state ≡ free
  pub no_pins : (p.slot i).refcount ≡ 0
  pub not_latest : p.latest ≢ some i

is_free→free : (v : SlotState) → is_free v ≡ true → v ≡ free
is_free→free free h = refl
is_free→free filling h = cc

is_index-false : (o : Option ℕ) (i : ℕ) → is_index o i ≡ false → o ≢ some i
is_index-false none i h = λ e. cc
is_index-false (some j) i h = λ e. ground arith

is_index-ne : (o : Option ℕ) (i : ℕ) → o ≢ some i → is_index o i ≡ false
is_index-ne none i h = refl
is_index-ne (some j) i h = ground arith

is_reusable→Reusable : (p : Pipeline) (i : ℕ) → is_reusable p i ≡ true → Reusable p i
unfolding is_reusable
is_reusable→Reusable p i h = record {
  is_free_slot = is_free→free (p.slot i).state (ground arith);
  no_pins = ground arith;
  not_latest = is_index-false p.latest i (ground arith);
}

is_reusable_holds : (p : Pipeline) (i : ℕ) → Reusable p i → is_reusable p i ≡ true
unfolding is_reusable
is_reusable_holds p i h =
    ground (arith, h.is_free_slot, h.no_pins, is_index-ne p.latest i h.not_latest)

not-Reusable : (p : Pipeline) (i : ℕ) → is_reusable p i ≡ false → ¬ Reusable p i
not-Reusable p i h r = cc (is_reusable_holds p i r)

-- The first reusable slot of `n` from `i` on, or none of them is reusable.
abbrev pub First : Pipeline → ℕ → ℕ → Option ℕ → Type 0
First p i n none = (j : ℕ) → i ≤ j → j < i + n → ¬ Reusable p j
First p i n (some k) =
    (i ≤ k) × (k < i + n) × Reusable p k × ((j : ℕ) → i ≤ j → j < k → ¬ Reusable p j)

First-next :
    (p : Pipeline) (i n : ℕ) (o : Option ℕ)
    → ¬ Reusable p i
    → First p (i + 1) n o
    → First p i (suc n) o
First-next p i n none h k =
    λ j a b. elim (ℕ_discrete j i) [ yes e ↦ rw e h | no ne ↦ k j (omega arith) (omega arith) ]
First-next p i n (some x) h k = (
  omega arith,
  omega arith,
  k.2,
  λ j a b. elim (ℕ_discrete j i) [ yes e ↦ rw e h | no ne ↦ k.3 j (omega arith) b ],
)

find_slot-First : (p : Pipeline) (n i : ℕ) → First p i n (find_slot p i n)
unfolding find_slot
find_slot-First p zero i = λ j a b. absurd (omega arith)
find_slot-First p (suc n) i = elim (Bool-cases (is_reusable p i)) [
  | inl h ↦
      rw (h, find_slot)
        (omega arith, omega arith, is_reusable→Reusable p i h, λ j a b. absurd (omega arith))
  | inr h ↦
      rw (h, find_slot)
        (First-next p i n (find_slot p (i + 1) n) (not-Reusable p i h)
          (find_slot-First p n (i + 1)))
]

taken_sink : (p : Pipeline) (o : Option ℕ) → (take_slot p o).sink ≡ p.sink
unfolding take_slot
taken_sink p none = refl
taken_sink p (some i) = refl

taken_latest : (p : Pipeline) (o : Option ℕ) → (take_slot p o).latest ≡ p.latest
unfolding take_slot
taken_latest p none = refl
taken_latest p (some i) = refl

taken_other : (p : Pipeline) (o : Option ℕ) (j : ℕ) → o ≢ some j → (take_slot p o).slot j ≡ p.slot j
unfolding take_slot
taken_other p none j h = refl
taken_other p (some i) j h = update-ne p.slot i _ j (λ e. h (ap some (sym e)))

taken_slot :
    (p : Pipeline) (o : Option ℕ) (i : ℕ)
    → o ≡ some i
    → ((take_slot p o).slot i ≡ record (p.slot i) { state = filling })
      × ((take_slot p o).stats ≡ record (p.stats) { captured = bump p.stats.captured })
unfolding take_slot
taken_slot p none i h = cc
taken_slot p (some k) i h = let e : k ≡ i = cc in rw e (update_self p.slot i _, refl)

taken_none :
    (p : Pipeline) (o : Option ℕ)
    → o ≡ none
    → (take_slot p o).stats ≡ record (p.stats) { overruns = bump p.stats.overruns }
unfolding take_slot
taken_none p none h = refl
taken_none p (some k) h = cc

-- What `acquire` returns and what it leaves alone.
pub acquire_frame :
    (p : Pipeline)
    → First p 0 p.nslots (acquire p).0
      × ((acquire p).1.sink ≡ p.sink)
      × ((acquire p).1.latest ≡ p.latest)
      × ((j : ℕ) → (acquire p).0 ≢ some j → (acquire p).1.slot j ≡ p.slot j)
      × ((i : ℕ)
          → (acquire p).0 ≡ some i
          → ((acquire p).1.slot i ≡ record (p.slot i) { state = filling })
            × ((acquire p).1.stats ≡ record (p.stats) { captured = bump p.stats.captured }))
      × ((acquire p).0 ≡ none
          → (acquire p).1.stats ≡ record (p.stats) { overruns = bump p.stats.overruns })
unfolding acquire
acquire_frame p = (
  find_slot-First p p.nslots 0,
  taken_sink p (find_slot p 0 p.nslots),
  taken_latest p (find_slot p 0 p.nslots),
  taken_other p (find_slot p 0 p.nslots),
  taken_slot p (find_slot p 0 p.nslots),
  taken_none p (find_slot p 0 p.nslots),
)

-- What `acquire` does to the slots and the counters for what it returns.
abbrev pub Acquired : Pipeline → Option ℕ → Pipeline → Type 0
Acquired p none q =
    (q.slot ≡ p.slot) × (q.stats ≡ record (p.stats) { overruns = bump p.stats.overruns })
Acquired p (some i) q =
    (q.slot ≡ update p.slot i (record (p.slot i) { state = filling }))
    × (q.stats ≡ record (p.stats) { captured = bump p.stats.captured })

taken-Acquired : (p : Pipeline) (o : Option ℕ) → Acquired p o (take_slot p o)
unfolding take_slot
taken-Acquired p none = (refl, refl)
taken-Acquired p (some i) = (refl, refl)

-- `acquire` hands out the first slot that is free, has no pins and is not the latest, marks it as
-- being filled and counts it; it hands out none only where no slot is such, and then it counts an
-- overrun. The other slots, the sinks and the latest frame are left alone.
pub acquire_lem :
    (p : Pipeline)
    → First p 0 p.nslots (acquire p).0
      × Acquired p (acquire p).0 (acquire p).1
      × ((acquire p).1.sink ≡ p.sink)
      × ((acquire p).1.latest ≡ p.latest)
unfolding acquire
acquire_lem p =
    let h = acquire_frame p in (h.0, taken-Acquired p (find_slot p 0 p.nslots), h.1, h.2)
