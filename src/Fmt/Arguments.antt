-- ===== src/Fmt/Arguments.antt =====
-- The arguments that a format asks for, and that the formatter returns if it is given them.
use wio_lite_ai.Base.{
  ℕ, zero, suc, Bool, true, false, ◌&&◌, Option, none, some, List, [], ◌∷◌, ◌==◌, if◌then◌else◌,
}
use wio_lite_ai.Fmt.{Arg, Outcome, done, undefined_argument, directive}
use wio_lite_ai.Fmt.Sink.{map_outcome}
use wio_lite_ai.Fmt.Kinds.{Kind, is_of, asks}

abbrev pub and_then : Option Kind → List Kind → List Kind
and_then none ks = ks
and_then (some k) ks = k ∷ ks

-- What a format asks for, in order; the fuel is for its length.
unfoldable pub asked : ℕ → List ℕ → List Kind
asked zero fmt = []
asked (suc f) [] = []
asked (suc f) (c ∷ cs) =
    if c == b'%'
    then elim (directive cs).behind [
      | [] ↦ []
      | (e ∷ rest) ↦ and_then (asks e (directive cs).modifier) (asked f rest)
    ]
    else asked f cs

-- Arguments of these kinds, in this order, and maybe more.
abbrev pub are_of : List Kind → List Arg → Bool
are_of [] args = true
are_of (k ∷ ks) [] = false
are_of (k ∷ ks) (a ∷ args) = is_of k a && are_of ks args

-- Whether a run returns, and whether it reads an argument that is not there.
abbrev pub ending : {S : Type 0} → Outcome S → Outcome (Unit {0})
ending o = map_outcome (λ s. tt) o

abbrev pub ending_by : Bool → Outcome (Unit {0})
ending_by true = done tt
ending_by false = undefined_argument
