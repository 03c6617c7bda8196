-- ===== src/Shell/Parse/Filled.antt =====
-- The arguments of a command as words of the line, while they are read.
use wio_lite_ai.Base.{
  ℕ, ◌≤◌, ◌≡◌, ◌⊎◌, inl, inr, refl, sym, subst, ap, ◌∙◌, arith, Bool, true, false, List, [], ◌∷◌,
  ◌++◌, append_assoc, length, length-append,
}
use wio_lite_ai.Shell.Token.Lexer.{drop_spaces}
use wio_lite_ai.Shell.Parse.Walk.{Reads}

-- `Taken`, of the words behind any others.
pub data Filled (text : List ℕ) (raw : Bool) (need : ℕ) (words more : List (List ℕ)) : Type 0 where
  to_end :
      Reads text (words ++ more) []
      → (raw ≡ true → length more ≤ need)
      → Filled text raw need words more
  with_tail :
      (before : List (List ℕ)) (rest : List ℕ) (x : ℕ) (xs : List ℕ)
      → raw ≡ true
      → Reads text (words ++ before) rest
      → length before ≡ need
      → drop_spaces rest ≡ x ∷ xs
      → more ≡ before ++ (x ∷ xs) ∷ []
      → Filled text raw need words more

pub Filled-more :
    (text t : List ℕ) (words more : List (List ℕ))
    → Filled text false 0 (words ++ t ∷ []) more
    → Filled text false 0 words (t ∷ more)
Filled-more text t words more (to_end r h) =
    to_end (subst (λ ws. Reads text ws []) (append_assoc words (t ∷ []) more) r) (λ z. cc z)
Filled-more text t words more (with_tail before rest x xs z r n d e) = cc z

pub Filled-join :
    (text : List ℕ) (need : ℕ) (words more more' : List (List ℕ)) (rest : List ℕ)
    → length more ≤ need
    → (length more ≡ need) ⊎ (rest ≡ [])
    → (rest ≡ [] → more' ≡ [])
    → Filled text true 0 (words ++ more) more'
    → Filled text true need words (more ++ more')
Filled-join text need words more more' rest h k e (to_end r g) =
    to_end (subst (λ ws. Reads text ws []) (append_assoc words more more') r)
      (λ z. omega (arith, g refl, length-append more more'))
Filled-join text need words more more' rest h k e (with_tail before l x xs z r n d q) =
    with_tail (more ++ before) l x xs refl
      (subst (λ ws. Reads text ws l) (append_assoc words more before) r)
      (omega (arith, n, length-append more before, exact)) d
      (ap (λ ws. more ++ ws) q ∙ sym (append_assoc more before ((x ∷ xs) ∷ [])))
  where
    exact : length more ≡ need
    exact = elim k [
      | inl y ↦ y
      | inr y ↦
          absurd (omega (arith, ap length (e y), ap length q, length-append before ((x ∷ xs) ∷ [])))
    ]

pub Filled-any :
    (text : List ℕ) (words more : List (List ℕ)) (need : ℕ)
    → Filled text false 0 words more
    → Filled text false need words more
Filled-any text words more need (to_end r h) = to_end r (λ z. cc z)
Filled-any text words more need (with_tail before rest x xs z r n d e) = cc z
