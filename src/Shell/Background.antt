-- ===== src/Shell/Background.antt =====
-- cli_segment_is_background of shell/core/cli_parse.c, which finds a trailing '&' and strips it with
-- the whitespace before it. The segment begins at an address `p`; an index of the code is here the
-- address `p + i`. Memory and fuel are as in Shell.Token.
pub mod Candidate
pub mod Sound
pub mod Verdict
mod Tests
use wio_lite_ai.Base.{
  ℕ, zero, suc, ◌+◌, ◌-◌, ◌&&◌, ◌||◌, not, Bool, true, false, Option, none, some, ◌==◌,
  if◌then◌else◌, Mem, store,
}
use wio_lite_ai.Shell.Token.{is_space}

-- The loop's variables: `amp` is `none` for -1.
pub record Amp : Type 0 where
  pub quote : ℕ
  pub amp : Option ℕ
  pub amp_after_amp : Bool
  pub prev_sig_amp : Bool

-- Where a round of the `for` loop goes: on at the next `i`, or out of the loop.
pub data BackgroundRound : Type 0 where
  on : Amp → (i : ℕ) → BackgroundRound
  leave : BackgroundRound

abbrev pub reset : Amp → Amp
reset s = record s { amp = none; prev_sig_amp = false }

-- Outside quotes.
unfoldable pub plain_round : Amp → Mem → ℕ → BackgroundRound
plain_round s m i =
    let c = m i in
    if is_space c
    then on s (i + 1)
    else if c == b'\\'
    then (if m (i + 1) == 0 then leave else on (reset s) (i + 2))
    else if c == b'"' || c == b'\''
    then on (record (reset s) { quote = c }) (i + 1)
    else if c == b'&'
    then on (record s { amp = some i; amp_after_amp = s.prev_sig_amp; prev_sig_amp = true }) (i + 1)
    else on (reset s) (i + 1)

unfoldable pub double_round : Amp → Mem → ℕ → BackgroundRound
double_round s m i =
    let c = m i in
    if c == b'\\' && not (m (i + 1) == 0)
    then on (reset s) (i + 2)
    else if c == b'"'
    then on (record (reset s) { quote = 0 }) (i + 1)
    else on (reset s) (i + 1)

unfoldable pub single_round : Amp → Mem → ℕ → BackgroundRound
single_round s m i =
    if m i == b'\'' then on (record (reset s) { quote = 0 }) (i + 1) else on (reset s) (i + 1)

unfoldable pub background_round : Amp → Mem → ℕ → BackgroundRound
unfolding plain_round double_round single_round
background_round s m i =
    if s.quote == 0
    then plain_round s m i
    else if s.quote == b'"'
    then double_round s m i
    else single_round s m i

unfoldable pub background_loop : ℕ → Amp → Mem → ℕ → Option Amp
background_loop zero s m i = none
background_loop (suc f) s m i = elim (m i == 0) [
  | true ↦ some s
  | false ↦ elim (background_round s m i) [ on s' i' ↦ background_loop f s' m i' | leave ↦ some s ]
]

-- The whitespace among the `n` bytes from `p` on that stands at their end.
unfoldable pub blank : ℕ → ℕ → Mem → Mem
blank zero p m = m
blank (suc n) p m =
    let shorter = blank n p (store m (p + n) 0) in if is_space (m (p + n)) then shorter else m

unfoldable pub strip : ℕ → Mem → Amp → Bool × Mem
unfolding blank
strip p m s = elim s.amp [
  | none ↦ (false, m)
  | some a ↦ if s.amp_after_amp then (false, m) else (true, blank (a - p) p (store m a 0))
]

-- Whether the segment goes to the background, and the memory.
unfoldable pub is_background : ℕ → Mem → ℕ → Option (Bool × Mem)
unfolding strip
is_background f m p =
    elim (background_loop f
      (record { quote = 0; amp = none; amp_after_amp = false; prev_sig_amp = false }) m p) [
        | none ↦ none
        | some s ↦ some (strip p m s)
      ]
