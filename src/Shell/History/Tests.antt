-- ===== src/Shell/History/Tests.antt =====
-- cli_history.c on a history of two lines, "ls" and "pwd".
use wio_lite_ai.Base.{
  ℕ, ◌≡◌, refl, arith, true, false, none, some, List, [], ◌∷◌, Mem, write, codes,
}
use wio_lite_ai.Shell.History.{History, add, prev, next}
use wio_lite_ai.Shell.History.Packed.{Short}
use wio_lite_ai.Shell.History.Moves.{Holds}
use wio_lite_ai.Shell.History.Lines.{remember, add_lem}
use wio_lite_ai.Shell.History.Recall.{Moves, prev_lem, next_lem}

abbrev two_lines : List (List ℕ)
two_lines = codes "ls" ∷ codes "pwd" ∷ []

abbrev zeros : Mem
zeros q = 0

-- The first line is recalled.
abbrev at_first : History
at_first = record {
  hist = write (write zeros 0 (codes "ls")) 3 (codes "pwd");
  used = 7;
  nav_on = true;
  nav = 0;
  line = zeros;
  len = 0;
  cur = 0;
}

at_first-Holds : Holds at_first two_lines
at_first-Holds = record { packed = omega arith; fits = omega arith }

two_lines-Short : Short two_lines
two_lines-Short = omega arith

add_lem_example :
    (g : History) × (add 513 at_first (codes "cat") ≡ some g)
    × Holds g (remember two_lines (codes "cat"))
    × Short (remember two_lines (codes "cat"))
add_lem_example =
    add_lem 513 at_first two_lines (codes "cat") at_first-Holds two_lines-Short (omega arith)
      (omega arith)

abbrev at_live : History
at_live = record at_first { nav_on = false }

at_live-Holds : Holds at_live two_lines
at_live-Holds = record { packed = omega arith; fits = omega arith }

prev_lem_example : Moves at_live two_lines none (some 1) (prev 513 at_live)
prev_lem_example =
    prev_lem 513 at_live two_lines none at_live-Holds two_lines-Short (omega arith) refl

next_lem_example : Moves at_first two_lines (some 0) (some 1) (next 513 at_first)
next_lem_example =
    next_lem 513 at_first two_lines (some 0) at_first-Holds two_lines-Short (omega arith)
      (refl, omega arith, refl)
