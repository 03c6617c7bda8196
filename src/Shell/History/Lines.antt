-- ===== src/Shell/History/Lines.antt =====
-- What the history promises: a list of lines, oldest first, in bounded room, and that
-- `cli_history_add` implements it.
use wio_lite_ai.Base.{
  ℕ, zero, suc, ◌+◌, ◌≤◌, ◌<◌, ◌≡◌, ◌≢◌, ◌⊎◌, inl, inr, refl, ap, arith, Bool, false, Bool-cases,
  some, List, [], ◌∷◌, ◌++◌, ◌==◌, leb, ltb, if◌then◌else◌, length, ◌||◌, NonNul,
}
use wio_lite_ai.Shell.Parse.Paths.{name_eq, str_eq-name_eq}
use wio_lite_ai.Shell.History.{
  History, drop_oldest, append_entry, history_size, line_size, newest_off, is_newest, evict,
  evict_append, add,
}
use wio_lite_ai.Shell.History.Packed.{
  Short, bytes, Packed-bytes, last_before_lem, bytes-append, length-bytes, Packed-at,
}
use wio_lite_ai.Shell.History.Moves.{Holds, drop_oldest-Holds, append_entry-Holds}

abbrev pub is_last : List ℕ → List (List ℕ) → Bool
is_last line [] = false
is_last line (w ∷ []) = name_eq line w
is_last line (w ∷ v ∷ ws) = is_last line (v ∷ ws)

-- The newest lines that leave room for `n` bytes.
abbrev pub fit : List (List ℕ) → ℕ → List (List ℕ)
fit [] n = []
fit (w ∷ ws) n = if leb (bytes (w ∷ ws) + n) history_size then w ∷ ws else fit ws n

-- Empty lines and those too long are not remembered, nor is the newest line again.
abbrev pub remember : List (List ℕ) → List ℕ → List (List ℕ)
remember ws line =
    if length line == 0 || leb line_size (length line) || is_last line ws
    then ws
    else fit ws (length line + 1) ++ line ∷ []

evict_lem :
    (f : ℕ) (h : History) (ws : List (List ℕ)) (l : ℕ)
    → Holds h ws
    → l + 1 ≤ history_size
    → length ws < f
    → (g : History) × (evict f h l ≡ some g)
      × Holds g (fit ws (l + 1))
      × (g.used + l + 1 ≤ history_size)
unfolding evict
evict_lem zero h ws l k b lt = absurd (omega arith)
evict_lem (suc f) h [] l k b lt = (h, ground (arith, k.packed), k, omega (arith, k.packed))
evict_lem (suc f) h (w ∷ ws) l k b lt =
    let total = Packed-bytes h.hist 0 (w ∷ ws) h.used k.packed in
    elim (Bool-cases (ltb history_size (h.used + l + 1))) [
      | inl full ↦
          let (k', u) = drop_oldest-Holds h w ws k in
          let (g, e, kg, room) = evict_lem f (drop_oldest h) ws l k' b (omega arith) in
          let same : fit (w ∷ ws) (l + 1) ≡ fit ws (l + 1) = ground (arith, total, full) in
          (g, rw (full, evict) e, rw same kg, room)
      | inr fits ↦
          let same : fit (w ∷ ws) (l + 1) ≡ w ∷ ws = ground (arith, total, fits) in
          (h, rw (fits, evict) refl, rw same k, ground (arith, fits))
    ]

is_last-append :
    (line : List ℕ) (xs : List (List ℕ)) (w : List ℕ) → is_last line (xs ++ w ∷ []) ≡ name_eq line w
is_last-append line [] w = refl
is_last-append line (x ∷ []) w = refl
is_last-append line (x ∷ y ∷ xs) w = is_last-append line (y ∷ xs) w

-- A list is empty or has a last element.
pub last-cases :
    (ws : List (List ℕ)) → (ws ≡ []) ⊎ ((xs : List (List ℕ)) × (w : List ℕ) × (ws ≡ xs ++ w ∷ []))
last-cases [] = inl refl
last-cases (w ∷ ws) = elim (last-cases ws) [
  | inl e ↦ inr ([], w, ap (λ t. w ∷ t) e)
  | inr (xs, v, e) ↦ inr (w ∷ xs, v, ap (λ t. w ∷ t) e)
]

evict_append_lem :
    (f : ℕ) (h : History) (ws : List (List ℕ)) (line : List ℕ)
    → Holds h ws
    → NonNul line
    → length line + 1 ≤ history_size
    → history_size < f
    → (g : History) × (evict_append f h line ≡ some g)
      × Holds g (fit ws (length line + 1) ++ line ∷ [])
unfolding evict_append
evict_append_lem f h ws line k z b lt =
    let total = Packed-bytes h.hist 0 ws h.used k.packed in
    let (g, e, kg, room) =
      evict_lem f h ws (length line) k b (omega (arith, length-bytes ws, total, k.fits)) in
    (
      append_entry g line,
      rw (e, evict_append) refl,
      append_entry-Holds g (fit ws (length line + 1)) line z room kg,
    )

newest_lem :
    (f : ℕ) (h : History) (xs : List (List ℕ)) (w line : List ℕ)
    → Holds h (xs ++ w ∷ [])
    → NonNul line
    → history_size < f
    → is_newest h line (newest_off f h) ≡ some (is_last line (xs ++ w ∷ []))
unfolding newest_off is_newest
newest_lem f h xs w line k z lt =
    let total = Packed-bytes h.hist 0 (xs ++ w ∷ []) h.used k.packed in
    let sum = bytes-append xs (w ∷ []) in
    let found_at =
      last_before_lem f h 0 xs w [] h.used (omega (arith, k.fits)) k.packed
        (omega (arith, total, sum)) (omega (arith, length-bytes xs, total, sum, k.fits)) in
    let cmp =
      str_eq-name_eq line w h.hist (0 + bytes xs) z (Packed-at h.hist 0 xs w [] h.used k.packed) in
    rw (found_at, is_newest, is_last-append line xs w) (ap some cmp)

-- What the code finds of the newest line: nothing to compare with, or the comparison.
newest_found :
    (f : ℕ) (h : History) (ws : List (List ℕ)) (line : List ℕ)
    → Holds h ws
    → NonNul line
    → history_size < f
    → ((h.used ≡ 0) × (is_last line ws ≡ false))
      ⊎ ((h.used ≢ 0) × (is_newest h line (newest_off f h) ≡ some (is_last line ws)))
newest_found f h ws line k z lt = elim (last-cases ws) [
  | inl e ↦ inl (omega (arith, rw e at k.packed), rw e refl)
  | inr (xs, w, e) ↦
      let k' : Holds h (xs ++ w ∷ []) = rw e at k in
      let total = Packed-bytes h.hist 0 (xs ++ w ∷ []) h.used k'.packed in
      inr (
        λ none_used. omega (arith, total, bytes-append xs (w ∷ [])),
        rw e (newest_lem f h xs w line k' z lt),
      )
]

-- A line that is not refused for its length.
add_short :
    (f : ℕ) (h : History) (ws : List (List ℕ)) (line : List ℕ)
    → Holds h ws
    → NonNul line
    → history_size < f
    → 0 < length line
    → length line < line_size
    → (g : History) × (add f h line ≡ some g)
      × Holds g (if is_last line ws then ws else fit ws (length line + 1) ++ line ∷ [])
unfolding add
add_short f h ws line k z lt a b =
    let (g, e, kg) = evict_append_lem f h ws line k z (omega arith) lt in
    elim (newest_found f h ws line k z lt) [
      | inl (u, other) ↦
          let steps : add f h line ≡ some g = ground (arith, e, u) in (g, steps, rw other kg)
      | inr (u, compared) ↦ elim (Bool-cases (is_last line ws)) [
        | inl same ↦
            let steps : add f h line ≡ some h = ground (arith, compared, same, u) in
            (h, steps, rw same k)
        | inr other ↦
            let steps : add f h line ≡ some g = ground (arith, e, compared, other, u) in
            (g, steps, rw other kg)
      ]
    ]

add-Holds :
    (f : ℕ) (h : History) (ws : List (List ℕ)) (line : List ℕ)
    → Holds h ws
    → NonNul line
    → history_size < f
    → (g : History) × (add f h line ≡ some g) × Holds g (remember ws line)
unfolding add
add-Holds f h ws line k z lt = elim (Bool-cases (length line == 0 || leb line_size (length line))) [
  | inl r ↦
      let steps : add f h line ≡ some h = ground (arith, r) in
      let same : remember ws line ≡ ws = ground (arith, r) in (h, steps, rw same k)
  | inr r ↦
      let (g, e, kg) = add_short f h ws line k z lt (ground (arith, r)) (ground (arith, r)) in
      let same : remember ws line
          ≡ (if is_last line ws then ws else fit ws (length line + 1) ++ line ∷ []) =
        ground (arith, r) in
      (g, e, rw same kg)
]

Short-append : (xs ys : List (List ℕ)) → Short xs → Short ys → Short (xs ++ ys)
Short-append [] ys a b = b
Short-append (x ∷ xs) ys a b = (a.0, Short-append xs ys a.1 b)

Short-fit : (ws : List (List ℕ)) (n : ℕ) → Short ws → Short (fit ws n)
Short-fit [] n s = s
Short-fit (w ∷ ws) n s = elim (Bool-cases (leb (bytes (w ∷ ws) + n) history_size)) [
  | inl e ↦ rw e s
  | inr e ↦ rw e (Short-fit ws n s.1)
]

Short-remember : (ws : List (List ℕ)) (line : List ℕ) → Short ws → Short (remember ws line)
Short-remember ws line s =
    elim (Bool-cases (length line == 0 || leb line_size (length line) || is_last line ws)) [
      | inl e ↦ rw e s
      | inr e ↦ rw e (
          Short-append (fit ws (length line + 1)) (line ∷ []) (Short-fit ws (length line + 1) s)
            (ground (arith, e), tt))
    ]

-- Where a history holds the lines `ws`, all shorter than the line buffer, `cli_history_add`, with
-- fuel for the buffer, returns one that holds what `remember` says, and these are again shorter: the
-- lines as they were if the new one is empty, as long as the line buffer or longer, or the newest
-- already; else the newest of them that leave room for it, and the new line behind them.
pub add_lem :
    (f : ℕ) (h : History) (ws : List (List ℕ)) (line : List ℕ)
    → Holds h ws
    → Short ws
    → NonNul line
    → history_size < f
    → (g : History) × (add f h line ≡ some g)
      × Holds g (remember ws line)
      × Short (remember ws line)
add_lem f h ws line k s z lt =
    let (g, e, kg) = add-Holds f h ws line k z lt in (g, e, kg, Short-remember ws line s)
