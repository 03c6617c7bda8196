-- ===== src/Shell/Segment/Tests.antt =====
-- cli_next_segment at concrete lines.
use wio_lite_ai.Base.{
  ℕ, ◌≡◌, ◌≢◌, ◌⊎◌, refl, arith, Option, none, some, [], CStr, store, codes, load,
}
use wio_lite_ai.Shell.Token.{tokenize, unterminated_quote}
use wio_lite_ai.Shell.Token.Lexer.{plain}
use wio_lite_ai.Shell.Token.Tokenize.{Outcome, Returns, rejected}
use wio_lite_ai.Shell.Segment.{Segment, segment_loop, segment_round, next_segment}
use wio_lite_ai.Shell.Segment.Modes.{NoCut}
use wio_lite_ai.Shell.Segment.InPlace.{CutOff, next_segment_lem}
use wio_lite_ai.Shell.Segment.Balanced.{cut-tokenize}

abbrev cursor_of : Option Segment → Option ℕ
cursor_of (some s) = s.cursor
cursor_of none = none

quoted_semicolon : cursor_of (next_segment 20 (load "a \";\";b") (some 0)) ≡ some 6
unfolding next_segment segment_loop segment_round
quoted_semicolon = refl

line-CStr : CStr (load "a \";\";b") 0 (codes "a \";\";b")
line-CStr = omega arith

next_segment_lem_example :
    let m = load "a \";\";b" in
    (s : Segment) × (next_segment 20 m (some 0) ≡ some s)
    × (s.start ≡ some 0)
    × (((s.cursor ≡ none) × (s.mem ≡ m) × NoCut plain (codes "a \";\";b"))
        ⊎ ((q : ℕ) × (s.cursor ≡ some q) × CutOff s.mem 0 q (codes "a \";\";b")))
next_segment_lem_example =
    next_segment_lem 20 (load "a \";\";b") 0 (codes "a \";\";b") line-CStr (omega arith)

abbrev cut_off : Segment
cut_off = record { start = some 0; mem = store (load "a \";\";b") 5 0; cursor = some 6 }

cuts : next_segment 20 (load "a \";\";b") (some 0) ≡ some cut_off
unfolding next_segment segment_loop segment_round
cuts = refl

cut-tokenize_example :
    (o : Outcome) × Returns (tokenize 20 cut_off.mem 0 5) [] o × (o ≢ rejected unterminated_quote)
cut-tokenize_example =
    cut-tokenize 20 20 5 (load "a \";\";b") 0 6 (codes "a \";\";b") cut_off line-CStr (omega arith)
      (omega arith) cuts refl
