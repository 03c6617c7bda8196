-- ===== src/Shell/Address/Dotted.antt =====
-- An address of four numerals with dots between them is read as the number that they stand for.
use wio_lite_ai.Base.{
  ℕ, zero, suc, ◌+◌, ◌-◌, ◌*◌, ◌%◌, ◌^◌, ◌≤◌, ◌<◌, ◌≡◌, inl, inr, refl, sym, subst, ap, ◌∙◌, arith,
  true, false, Option, some, Option-cases, List, [], ◌∷◌, ◌++◌, append_assoc, append-nil, length,
  length-append, Mem, CStr, CStr-append,
}
use wio_lite_ai.Shell.Number.{between, digit}
use wio_lite_ai.Shell.Number.Value.{value, value_of, value-ge}
use wio_lite_ai.Shell.Address.{octet_loop, ipv4_loop, joined, parse_ipv4}

-- A field of an address: its numeral and its value.
pub record Field : Type 0 where
  pub numeral : List ℕ
  pub octet : ℕ

-- The numerals with dots between them.
abbrev pub dotted : List Field → List ℕ
dotted [] = []
dotted (g ∷ []) = g.numeral
dotted (g ∷ h ∷ gs) = g.numeral ++ b'.' ∷ dotted (h ∷ gs)

abbrev pub octets : List Field → List ℕ
octets [] = []
octets (g ∷ gs) = g.octet ∷ octets gs

-- Each numeral is decimal, its value is the field's and at most 255.
abbrev pub Octets : List Field → Type 0
Octets [] = Unit {0}
Octets (g ∷ gs) = (value_of 10 g.numeral ≡ some g.octet) × (g.octet ≤ 255) × Octets gs

read_congr :
    (w : ℕ) {k k' p p' : ℕ}
    → k ≡ k'
    → p ≡ p'
    → ◌≡◌ {A = Option (Option (ℕ × ℕ × ℕ))} (some (some (w, k, p))) (some (some (w, k', p')))
read_congr w a b = λ i. some (some (w, a i, b i))

digit-between : (c d : ℕ) → digit 10 c ≡ some d → (between b'0' b'9' c ≡ true) × (d ≡ c - b'0')
unfolding digit
digit-between c d e = ground (arith, e)

octet_loop_lem :
    (f : ℕ) (m : Mem) (p v k w : ℕ) (g r : List ℕ)
    → CStr m p (g ++ r)
    → between b'0' b'9' (m (p + length g)) ≡ false
    → value 10 g v ≡ some w
    → w ≤ 255
    → length g < f
    → octet_loop f m p v k ≡ some (some (w, k + length g, p + length g))
unfolding octet_loop value
octet_loop_lem zero m p v k w g r s t e h lt = absurd (omega arith)
octet_loop_lem (suc f) m p v k w [] r s t e h lt =
    let stop : between b'0' b'9' (m p) ≡ false =
      subst (λ q. between b'0' b'9' (m q) ≡ false) (omega arith) t in
    let whole : v ≡ w = ground (arith, e) in
    let steps : octet_loop (suc f) m p v k ≡ some (some (v, k, p)) = ground (arith, stop) in
    steps ∙ ap (λ x. some (some (x, k, p))) whole ∙ read_congr w (omega arith) (omega arith)
octet_loop_lem (suc f) m p v k w (c ∷ cs) r s t e h lt = elim (Option-cases (digit 10 c)) [
  | inl n ↦ absurd (ground (arith, n, e))
  | inr (d, n) ↦
      let e' : value 10 cs (v * 10 + d) ≡ some w = ground (arith, n, e) in
      let low = value-ge 10 cs (v * 10 + d) w (inl refl) e' in
      let (is_digit, d_is) = digit-between c d n in
      let next : (v * 10 + (m p - b'0')) % 2 ^ 32 ≡ v * 10 + d = omega (arith, low, h, d_is, s.0) in
      let steps : octet_loop (suc f) m p v k ≡ octet_loop f m (p + 1) (v * 10 + d) (k + 1) =
        octet_step (subst (λ x. between b'0' b'9' x ≡ true) (sym s.0) is_digit) next
          (omega (arith, low, h)) in
      steps
      ∙ octet_loop_lem f m (p + 1) (v * 10 + d) (k + 1) w cs r s.2
          (subst (λ q. between b'0' b'9' (m q) ≡ false) (omega arith) t) e' h (omega arith)
      ∙ read_congr w (omega arith) (omega arith)
]
  where
    octet_step :
        {x : ℕ}
        → between b'0' b'9' (m p) ≡ true
        → (v * 10 + (m p - b'0')) % 2 ^ 32 ≡ x
        → x ≤ 255
        → octet_loop (suc f) m p v k ≡ octet_loop f m (p + 1) x (k + 1)
    octet_step y e le = ground (arith, y, e, le)

value_of-digits :
    (g : List ℕ) (v : ℕ) → value_of 10 g ≡ some v → (value 10 g 0 ≡ some v) × (0 < length g)
value_of-digits [] v e = absurd (ground (arith, e))
value_of-digits (c ∷ cs) v e = (e, omega arith)

-- What stands behind the numeral of a field: the end, or a dot and the other fields.
pub ipv4_loop_lem :
    (f : ℕ) (m : Mem) (p : ℕ) (b : List ℕ) (g : Field) (gs : List Field)
    → CStr m p (dotted (g ∷ gs))
    → Octets (g ∷ gs)
    → length b + length gs ≤ 3
    → length (dotted (g ∷ gs)) < f
    → ipv4_loop f m p b ≡ some (some (b ++ octets (g ∷ gs)))
unfolding ipv4_loop
ipv4_loop_lem zero m p b g gs s o n lt = absurd (omega arith)
ipv4_loop_lem (suc f) m p b g [] s o n lt =
    let (e, pos) = value_of-digits g.numeral g.octet o.0 in
    let s' : CStr m p (g.numeral ++ []) = subst (CStr m p) (sym (append-nil g.numeral)) s in
    let nul : m (p + length g.numeral) ≡ 0 = CStr-append m p g.numeral [] s' in
    let run =
      octet_loop_lem (suc f) m p 0 0 g.octet g.numeral [] s' (ground (arith, nul)) e o.1
        (omega arith) in
    ground (arith, run, nul, pos, n)
ipv4_loop_lem (suc f) m p b g (h ∷ gs) s o n lt =
    let (e, pos) = value_of-digits g.numeral g.octet o.0 in
    let rest = CStr-append m p g.numeral (b'.' ∷ dotted (h ∷ gs)) s in
    let run =
      octet_loop_lem (suc f) m p 0 0 g.octet g.numeral (b'.' ∷ dotted (h ∷ gs)) s
        (ground (arith, rest.0)) e o.1
        (omega (arith, length-append g.numeral (b'.' ∷ dotted (h ∷ gs)))) in
    let steps : ipv4_loop (suc f) m p b
        ≡ ipv4_loop f m (p + length g.numeral + 1) (b ++ g.octet ∷ []) =
      ground (arith, run, rest.0, pos, n) in
    steps
    ∙ ipv4_loop_lem f m (p + length g.numeral + 1) (b ++ g.octet ∷ []) h gs rest.2 o.2
        (omega (arith, n, length-append b (g.octet ∷ [])))
        (omega (arith, length-append g.numeral (b'.' ∷ dotted (h ∷ gs))))
    ∙ ap (λ l. some (some l)) (append_assoc b (g.octet ∷ []) (octets (h ∷ gs)))

-- Where a string is four decimal numerals with dots between them, each of a value of at most 255, and with
-- fuel for it, `cli_parse_ipv4` returns the address of these four octets, the first one on top.
pub parse_ipv4_lem :
    (f : ℕ) (m : Mem) (p : ℕ) (g0 g1 g2 g3 : Field)
    → CStr m p (dotted (g0 ∷ g1 ∷ g2 ∷ g3 ∷ []))
    → Octets (g0 ∷ g1 ∷ g2 ∷ g3 ∷ [])
    → length (dotted (g0 ∷ g1 ∷ g2 ∷ g3 ∷ [])) < f
    → parse_ipv4 f m (some p)
      ≡ some (some (g0.octet * 2 ^ 24 + g1.octet * 2 ^ 16 + g2.octet * 2 ^ 8 + g3.octet))
unfolding parse_ipv4
parse_ipv4_lem f m p g0 g1 g2 g3 s o lt =
    ap joined (ipv4_loop_lem f m p [] g0 (g1 ∷ g2 ∷ g3 ∷ []) s o (omega arith) lt)
