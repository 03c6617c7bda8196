-- ===== src/Shell/Segment.antt =====
-- cli_next_segment of shell/core/cli_parse.c, which splits a line on top-level ';' in place;
-- addresses, memory and fuel are as in Shell.Token.
pub mod Modes
pub mod InPlace
pub mod Balanced
mod Tests
use wio_lite_ai.Base.{
  ℕ, zero, suc, ◌+◌, ◌-◌, ◌&&◌, ◌||◌, not, Bool, true, false, Option, none, some, ◌==◌,
  if◌then◌else◌, Mem, store,
}

-- Where a round of the `for` loop goes: on at the next `p`, to the ';' at `p`, or out of the loop.
pub data Round : Type 0 where
  on : (quote p : ℕ) → Round
  cut : (p : ℕ) → Round
  eol : Round

-- The body of the loop, and the loop's own `p++`; `*p` is not NUL.
pub segment_round : ℕ → Mem → ℕ → Round
segment_round quote m p =
    let c = m p in
    if quote == 0
    then (if c == b';'
        then cut p
        else if c == b'"' || c == b'\''
        then on c (p + 1)
        else if c == b'\\'
        then (if m (p + 1) == 0 then eol else on quote (p + 2))
        else on quote (p + 1))
    else if quote == b'"'
    then (if c == b'"'
        then on 0 (p + 1)
        else if c == b'\\'
        then (if m (p + 1) == 0 then eol else on quote (p + 2))
        else on quote (p + 1))
    else (if c == b'\'' then on 0 (p + 1) else on quote (p + 1))

-- The address of the ';' that ends the segment, or `none` at the end of the line.
pub segment_loop : ℕ → ℕ → Mem → ℕ → Option (Option ℕ)
segment_loop zero quote m p = none
segment_loop (suc f) quote m p = elim (m p == 0) [
  | true ↦ some none
  | false ↦ elim (segment_round quote m p) [
    | on q p' ↦ segment_loop f q m p'
    | cut p' ↦ some (some p')
    | eol ↦ some none
  ]
]

-- The segment's address, the memory and the new cursor; a `none` among the results is NULL.
pub record Segment : Type 0 where
  pub start : Option ℕ
  pub mem : Mem
  pub cursor : Option ℕ

segment_end : Mem → ℕ → Option (Option ℕ) → Option Segment
segment_end m p none = none
segment_end m p (some none) = some (record { start = some p; mem = m; cursor = none })
segment_end m p (some (some q)) =
    some (record { start = some p; mem = store m q 0; cursor = some (q + 1) })

pub next_segment : ℕ → Mem → Option ℕ → Option Segment
unfolding segment_end
next_segment f m none = some (record { start = none; mem = m; cursor = none })
next_segment f m (some p) = segment_end m p (segment_loop f 0 m p)
