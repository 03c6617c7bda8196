-- ===== src/Shell/History/Moves.antt =====
-- How packed entries move and grow: the memory lemmas of eviction and of a new entry.
use wio_lite_ai.Base.{
  ℕ, ◌+◌, ◌-◌, ◌%◌, ◌^◌, ◌≤◌, ◌<◌, ◌≡◌, refl, sym, subst, ◌∙◌, arith, List, [], ◌∷◌, ◌++◌, length,
  Mem, CStr, store, write, CStr-agree, CStr-terminated, NonNul, write-below, store-ne,
}
use wio_lite_ai.Shell.History.{History, copy, next_off, drop_oldest, append_entry, history_size}
use wio_lite_ai.Shell.History.Packed.{bytes, Packed, Packed-bytes, copy-CStr, next_off-Packed}

pub Packed-agree :
    (m m' : Mem) (off : ℕ) (ws : List (List ℕ)) (e : ℕ)
    → ((q : ℕ) → off ≤ q → q < e → m' q ≡ m q)
    → Packed m off ws e
    → Packed m' off ws e
Packed-agree m m' off [] e h k = k
Packed-agree m m' off (w ∷ ws) e h k =
    let b = Packed-bytes m (off + length w + 1) ws e k.1 in
    (
      CStr-agree m m' off w (λ q x y. h q x (omega (arith, b))) k.0,
      Packed-agree m m' (off + length w + 1) ws e (λ q x y. h q (omega arith) y) k.1,
    )

pub Packed-append :
    (m : Mem) (off : ℕ) (ws : List (List ℕ)) (e : ℕ) (w : List ℕ)
    → Packed m off ws e
    → CStr m e w
    → Packed m off (ws ++ w ∷ []) (e + length w + 1)
Packed-append m off [] e w k s = (subst (λ x. CStr m x w) (sym k) s, omega (arith, k))
Packed-append m off (v ∷ ws) e w k s = (k.0, Packed-append m (off + length v + 1) ws e w k.1 s)

pub Packed-copy :
    (to from : Mem) (first n p q : ℕ) (ws : List (List ℕ)) (e : ℕ)
    → q ≡ first + p
    → e ≡ first + n
    → Packed from q ws e
    → Packed (copy to 0 from first n) p ws n
Packed-copy to from first n p q [] e a b k = omega (arith, k)
Packed-copy to from first n p q (w ∷ ws) e a b k =
    let s = Packed-bytes from (q + length w + 1) ws e k.1 in
    (
      copy-CStr to from 0 first n p q w k.0 (omega arith) (omega (arith, s)) (omega arith),
      Packed-copy to from first n (p + length w + 1) (q + length w + 1) ws e (omega arith) b k.1,
    )

-- The entries of a history, and the bounds on its offset.
pub record Holds (h : History) (ws : List (List ℕ)) : Type 0 where
  pub packed : Packed h.hist 0 ws h.used
  pub fits : h.used ≤ history_size

pub drop_oldest-Holds :
    (h : History) (w : List ℕ) (ws : List (List ℕ))
    → Holds h (w ∷ ws)
    → Holds (drop_oldest h) ws × ((drop_oldest h).used ≡ bytes ws)
unfolding drop_oldest
drop_oldest-Holds h w ws k =
    let first = length w + 1 in
    let b = Packed-bytes h.hist (0 + length w + 1) ws h.used k.packed.1 in
    let e : next_off h 0 ≡ first =
      omega (arith, next_off-Packed h 0 w ws (omega (arith, k.fits)) k.packed) in
    let left : (h.used - first) % 2 ^ 16 ≡ h.used - first = omega (arith, k.fits) in
    let steps : drop_oldest h
        ≡ record h { hist = copy h.hist 0 h.hist first (h.used - first); used = h.used - first } =
      rw (drop_oldest, e, left) refl in
    subst (λ g. Holds g ws × (g.used ≡ bytes ws)) (sym steps)
      (
        record {
          packed =
              Packed-copy h.hist h.hist first (h.used - first) 0 (0 + length w + 1) ws h.used
                (omega arith) (omega (arith, b)) k.packed.1;
          fits = omega (arith, k.fits);
        },
        omega (arith, b),
      )

pub append_entry-Holds :
    (h : History) (ws : List (List ℕ)) (line : List ℕ)
    → NonNul line
    → h.used + length line + 1 ≤ history_size
    → Holds h ws
    → Holds (append_entry h line) (ws ++ line ∷ [])
unfolding append_entry
append_entry-Holds h ws line z b k =
    let m = store (write h.hist h.used line) (h.used + length line) 0 in
    let total : (h.used + length line + 1) % 2 ^ 16 ≡ h.used + length line + 1 = omega (arith, b) in
    let before : Packed m 0 ws h.used =
      Packed-agree h.hist m 0 ws h.used
        (λ q x y.
          store-ne (write h.hist h.used line) (h.used + length line) 0 q (λ e. omega arith)
          ∙ write-below h.hist h.used line q y)
        k.packed in
    record {
      packed = subst (Packed m 0 (ws ++ line ∷ [])) (sym total) (
          Packed-append m 0 ws h.used line before
            (CStr-terminated h.hist h.used (h.used + length line) line refl z));
      fits = omega (arith, total, b);
    }
