-- ===== src/Shell/History/Recall.antt =====
-- `cli_history_prev` and `cli_history_next` as moves of an index in the list of lines.
use wio_lite_ai.Base.{
  ℕ, zero, suc, ◌+◌, ◌≤◌, ◌<◌, ◌≡◌, ◌≢◌, inl, inr, refl, sym, subst, ap, ◌∙◌, arith, true, false,
  Bool-cases, Option, none, some, List, [], ◌∷◌, ◌++◌, ltb, length, CStr, store, get_elem?, take,
  drop, take_all, take-append-drop, nil_of_length,
}
use wio_lite_ai.Shell.History.{
  History, next_off, history_size, newest_off, prev_off, last_before, load_entry, recall, prev,
  next,
}
use wio_lite_ai.Shell.History.Packed.{
  Short, bytes, Packed, Packed-bytes, last_before_lem, bytes-append, length-bytes, Packed-behind,
  next_off-Packed,
}
use wio_lite_ai.Shell.History.Moves.{Holds}
use wio_lite_ai.Shell.History.Walks.{older, newer, At, Shows, parts, Recalls, load_Recalls}

-- What a move between two places leaves: the history as it was if they are the same, the live line
-- emptied, or the recalled line shown if it is another one than before.
pub data Moved (h : History) (ws : List (List ℕ)) : Option ℕ → Option ℕ → History → Type 0 where
  stays : {o : Option ℕ} → Moved h ws o o h
  to_live :
      {k : ℕ} {g : History} → CStr g.line 0 [] → g.len ≡ 0 → g.cur ≡ 0 → Moved h ws (some k) none g
  to_line :
      {o : Option ℕ} {k : ℕ} {g : History} (w : List ℕ)
      → o ≢ some k
      → get_elem? ws k ≡ some w
      → Shows g w
      → Moved h ws o (some k) g

-- A move returns, keeps the lines, and leaves the index at `o'`.
abbrev pub Moves : History → List (List ℕ) → Option ℕ → Option ℕ → Option History → Type 0
Moves h ws o o' m = (g : History) × (m ≡ some g) × Holds g ws × At g ws o' × Moved h ws o o' g

recalled :
    {h : History} {ws : List (List ℕ)} {o : Option ℕ} {k : ℕ} {m : Option History}
    → o ≢ some k
    → Recalls m ws k
    → Moves h ws o (some k) m
recalled n r = (r.after, r.returns, r.holds, r.at, to_line r.word n r.found r.shows)

module _ (f : ℕ) (h : History) (ws : List (List ℕ)) (c : Holds h ws) (z : Short ws)
    (b : history_size < f) where
  total : bytes ws ≡ h.used
  total = omega (arith, Packed-bytes h.hist 0 ws h.used c.packed)

  -- The search of both functions for the line at `k`, up to the line behind it.
  search_lem :
      (k limit : ℕ)
      → k < length ws
      → limit ≡ bytes (take (suc k) ws)
      → last_before f h limit 0 ≡ some (bytes (take k ws))
  search_lem k limit lt e =
      let p = parts ws k lt in
      let k' : Packed h.hist 0 (take k ws ++ p.here ∷ drop (suc k) ws) h.used =
        subst (λ t. Packed h.hist 0 t h.used) p.parted c.packed in
      last_before_lem f h 0 (take k ws) p.here (drop (suc k) ws) limit (omega (arith, c.fits)) k'
        (omega (arith, e, p.one_more)) (omega (arith, p.long, length-bytes ws, total, c.fits))
      ∙ ap some (omega arith)

  some_used : 0 < length ws → h.used ≢ 0
  some_used lt = λ u. omega (arith, length-bytes ws, total)

  prev_live : (n : ℕ) → length ws ≡ n → h.nav_on ≡ false → Moves h ws none (older n none) (prev f h)
  unfolding prev newest_off recall
  prev_live zero e live =
      let e' : ws ≡ [] = nil_of_length ws (omega (arith, e)) in
      let none_used : h.used ≡ 0 = sym total ∙ ap bytes e' in
      let steps : prev f h ≡ some h = ground (arith, none_used) in (h, steps, c, live, stays)
  prev_live (suc n) e live =
      let full : bytes (take (suc n) ws) ≡ h.used =
        ap bytes (take_all (suc n) ws (omega (arith, e))) ∙ total in
      let at = search_lem n h.used (omega (arith, e)) (sym full) in
      let steps : prev f h
          ≡ load_entry f (record h { nav = bytes (take n ws); nav_on = true }) (bytes (take n ws)) =
        ground (arith, at, live, some_used (omega (arith, e))) in
      subst (Moves h ws none (some n)) (sym steps) (
        recalled (λ x. cc x)
          (load_Recalls f h ws n c z (omega (arith, e)) (omega arith) (bytes (take n ws)) refl))

  prev_line :
      (n k : ℕ)
      → length ws ≡ n
      → At h ws (some k)
      → Moves h ws (some k) (older n (some k)) (prev f h)
  unfolding prev prev_off recall
  prev_line zero k e at = absurd (omega (arith, at.1))
  prev_line (suc n) zero e at =
      let oldest : h.nav ≡ 0 = at.2 in
      let steps : prev f h ≡ some h = ground (arith, at.0, oldest, some_used (omega (arith, e))) in
      (h, steps, c, at, stays)
  prev_line (suc n) (suc k) e at =
      let p = parts ws k (omega (arith, at.1)) in
      let later : h.nav ≢ 0 = λ x. omega (arith, at.2, p.one_more) in
      let found_at = search_lem k h.nav (omega (arith, at.1)) at.2 in
      let steps : prev f h
          ≡ load_entry f (record h { nav = bytes (take k ws); nav_on = true }) (bytes (take k ws)) =
        ground (arith, found_at, at.0, later, some_used (omega (arith, e))) in
      subst (Moves h ws (some (suc k)) (some k)) (sym steps) (
        recalled (λ x. ground (arith, x))
          (load_Recalls f h ws k c z (omega (arith, at.1)) (omega arith) (bytes (take k ws)) refl))

  bytes-take : (n : ℕ) → bytes (take n ws) ≤ h.used
  bytes-take n =
      omega (arith, total, ap bytes (take-append-drop n ws), bytes-append (take n ws) (drop n ws))

  -- The offset behind the line at an index.
  next_off_lem : (k : ℕ) → At h ws (some k) → next_off h h.nav ≡ bytes (take (suc k) ws)
  next_off_lem k at =
      let p = parts ws k at.1 in
      let k' : Packed h.hist (0 + bytes (take k ws)) (p.here ∷ drop (suc k) ws) h.used =
        Packed-behind h.hist 0 (take k ws) (p.here ∷ drop (suc k) ws) h.used
          (subst (λ t. Packed h.hist 0 t h.used) p.parted c.packed) in
      let here : h.nav ≡ 0 + bytes (take k ws) = omega (arith, at.2) in
      ap (next_off h) here
      ∙ next_off-Packed h (0 + bytes (take k ws)) p.here (drop (suc k) ws) (omega (arith, c.fits))
          k'
      ∙ omega (arith, p.one_more)

  next_line :
      (k : ℕ) → At h ws (some k) → Moves h ws (some k) (newer (length ws) (some k)) (next f h)
  unfolding next
  next_line k at = elim (Bool-cases (ltb (k + 1) (length ws))) [
    | inl more ↦
        let q = parts ws (suc k) (ground (arith, more)) in
        let off = bytes (take (suc k) ws) in
        let before : off < h.used = omega (arith, q.one_more, bytes-take (suc (suc k))) in
        let steps : next f h ≡ load_entry f (record h { nav = off }) off =
          ground (arith, next_off_lem k at, at.0, before) in
        let same : record h { nav = off } ≡ record h { nav = off; nav_on = true } =
          ap (λ on. record h { nav = off; nav_on = on }) at.0 in
        rw more (
          subst (Moves h ws (some k) (some (k + 1)))
            (sym (steps ∙ ap (λ g. load_entry f g off) same))
            (recalled (λ x. ground (arith, x))
              (subst (Recalls (load_entry f (record h { nav = off; nav_on = true }) off) ws)
                (omega arith)
                (load_Recalls f h ws (suc k) c z (ground (arith, more)) (omega arith) off refl))))
    | inr last ↦
        let end : next_off h h.nav ≡ h.used =
          next_off_lem k at ∙ ap bytes (take_all (suc k) ws (ground (arith, last))) ∙ total in
        let live = record h { nav_on = false; len = 0; cur = 0; line = store h.line 0 0 } in
        let steps : next f h ≡ some live = ground (arith, end, at.0) in
        rw last
          (live, steps, record { packed = c.packed; fits = c.fits }, refl, to_live refl refl refl)
  ]

  next_live : h.nav_on ≡ false → Moves h ws none none (next f h)
  unfolding next
  next_live live =
      let steps : next f h ≡ some h = ground (arith, live) in (h, steps, c, live, stays)

-- Where a history holds the lines `ws`, all shorter than the line buffer, and the index of the line
-- recalled is `o`, `cli_history_prev`, with fuel for the buffer, returns: the lines are the same, the
-- index is one less, or the newest line's from the live line, and the line buffer has the line at it;
-- at the oldest line, and with no lines, the history is as it was.
pub prev_lem :
    (f : ℕ) (h : History) (ws : List (List ℕ)) (o : Option ℕ)
    → Holds h ws
    → Short ws
    → history_size < f
    → At h ws o
    → Moves h ws o (older (length ws) o) (prev f h)
prev_lem f h ws none c z b at = prev_live f h ws c z b (length ws) refl at
prev_lem f h ws (some k) c z b at = prev_line f h ws c z b (length ws) k refl at

-- Where a history holds the lines `ws`, all shorter than the line buffer, and the index of the line
-- recalled is `o`, `cli_history_next`, with fuel for the buffer, returns: the lines are the same, the
-- index is one more and the line buffer has the line at it; from the newest line the move leads to
-- the live line, which is emptied; on the live line, the history is as it was.
pub next_lem :
    (f : ℕ) (h : History) (ws : List (List ℕ)) (o : Option ℕ)
    → Holds h ws
    → Short ws
    → history_size < f
    → At h ws o
    → Moves h ws o (newer (length ws) o) (next f h)
next_lem f h ws none c z b at = next_live f h ws c z b at
next_lem f h ws (some k) c z b at = next_line f h ws c z b k at
