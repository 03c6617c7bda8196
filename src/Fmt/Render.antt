-- ===== src/Fmt/Render.antt =====
-- What the formatter writes as a list of bytes, and what it leaves of a format.
use wio_lite_ai.Base.{
  ℕ, ◌+◌, ◌-◌, ◌*◌, ◌≤◌, ◌≡◌, inl, inr, refl, sym, arith, Bool, true, false, Bool-cases, List, [],
  ◌∷◌, ◌++◌, ◌==◌, if◌then◌else◌, ltb, length,
}
use wio_lite_ai.Fmt.{
  Arg, Outcome, directive, flags, field_width, length_modifier, max_width, out_str, vformat,
}
use wio_lite_ai.Fmt.Sink.{map_outcome, vformat-hom}

-- The sink that keeps all bytes.
abbrev pub append_byte : List ℕ → ℕ → List ℕ
append_byte l c = l ++ c ∷ []

unfoldable pub rendered : ℕ → List ℕ → List Arg → Outcome (List ℕ)
rendered f fmt args = vformat append_byte f fmt args []

out_str-append :
    {S : Type 0} (put : S → ℕ → S) (xs : List ℕ) (c : ℕ) (s : S)
    → out_str put (xs ++ c ∷ []) s ≡ put (out_str put xs s) c
unfolding out_str
out_str-append put [] c s = refl
out_str-append put (x ∷ xs) c s = out_str-append put xs c (put s x)

-- For any sink, a run of the formatter is the run for the sink that keeps all bytes, with
-- those bytes then put one after the other: the formatter's result and its output do not depend
-- on the sink.
pub vformat-rendered :
    {S : Type 0} (put : S → ℕ → S) (f : ℕ) (fmt : List ℕ) (args : List Arg) (s : S)
    → vformat put f fmt args s ≡ map_outcome (λ l. out_str put l s) (rendered f fmt args)
unfolding rendered out_str
vformat-rendered put f fmt args s = sym (
    vformat-hom append_byte put (λ l. out_str put l s) (λ l c. out_str-append put l c s) f fmt args
      [])

flags-length : (cs : List ℕ) (l z : Bool) → length (flags cs l z).2 ≤ length cs
unfolding flags
flags-length [] l z = omega arith
flags-length (c ∷ cs) l z = elim (Bool-cases (c == b'-')) [
  | inl y ↦ ground (arith, y, flags-length cs true z)
  | inr n ↦ ground (arith, n, flags-length cs l true)
]

width-length : (cs : List ℕ) (w : ℕ) → length (field_width cs w).1 ≤ length cs
unfolding field_width
width-length [] w = omega arith
width-length (c ∷ cs) w =
    let v = w * 10 + (c - b'0') in
    ground (arith, width-length cs (if ltb max_width v then max_width else v))

modifier-length : (cs : List ℕ) → length (length_modifier cs).1 ≤ length cs
unfolding length_modifier
modifier-length [] = omega arith
modifier-length (c ∷ []) = ground arith
modifier-length (c ∷ d ∷ cs) = ground arith

pub directive-length : (cs : List ℕ) → length (directive cs).behind ≤ length cs
unfolding directive
directive-length cs =
    let (left, zeros, cs') = flags cs false false in
    omega (
      arith,
      flags-length cs false false,
      width-length (flags cs false false).2 0,
      modifier-length (field_width (flags cs false false).2 0).1,
    )
