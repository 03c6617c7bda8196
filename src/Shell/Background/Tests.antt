-- ===== src/Shell/Background/Tests.antt =====
-- cli_segment_is_background at concrete segments.
use wio_lite_ai.Base.{ℕ, ◌≡◌, refl, Bool, true, false, Option, none, some, load, codes}
use wio_lite_ai.Shell.Token.{is_space}
use wio_lite_ai.Shell.Token.Lexer.{effect}
use wio_lite_ai.Shell.Segment.Modes.{next_mode}
use wio_lite_ai.Shell.Background.Candidate.{marks, operator_of}
use wio_lite_ai.Shell.Background.Verdict.{Verdict}
use wio_lite_ai.Shell.Background.{
  is_background, background_loop, background_round, plain_round, double_round, single_round, strip,
  blank,
}

abbrev answer : ℕ → Option (Bool × (ℕ → ℕ)) → Option (Bool × ℕ)
answer q none = none
answer q (some (b, m)) = some (b, m q)

trailing : answer 3 (is_background 20 (load "cmd  & ") 0) ≡ some (true, 0)
unfolding is_background background_loop background_round plain_round double_round single_round strip
    blank is_space
trailing = refl

quoted : answer 6 (is_background 20 (load "echo \"a&\"") 0) ≡ some (false, b'a')
unfolding is_background background_loop background_round plain_round double_round single_round strip
    blank is_space
quoted = refl

-- A backslash behind the '&' does not keep the segment in the foreground.
before_backslash : answer 4 (is_background 20 (load "cmd &\\") 0) ≡ some (true, 0)
unfolding is_background background_loop background_round plain_round double_round single_round strip
    blank is_space
before_backslash = refl

-- Two '&' with a blank between them are taken for '&&'.
apart : answer 2 (is_background 20 (load "a & &") 0) ≡ some (false, b'&')
unfolding is_background background_loop background_round plain_round double_round single_round strip
    blank is_space
apart = refl

-- The specification at the same segments.
operators :
    (operator_of (codes "cmd  & ") 0 ≡ some 5)
    × (operator_of (codes "echo \"a&\"") 0 ≡ none)
    × (operator_of (codes "cmd &\\") 0 ≡ some 4)
    × (operator_of (codes "a & &") 0 ≡ none)
unfolding marks next_mode effect is_space
operators = (refl, refl, refl, refl)
