-- ===== src/Shell/History/Walks.antt =====
-- Going back and forth in the history: `cli_history_prev` and `cli_history_next` move an index in
-- the list of lines.
use wio_lite_ai.Base.{
  ℕ, zero, suc, ◌+◌, ◌%◌, ◌^◌, ◌<◌, ◌≡◌, refl, subst, ap, ◌∙◌, arith, true, false, Option, none,
  some, List, [], ◌∷◌, ◌++◌, ltb, if◌then◌else◌, length, CStr, get_elem?, take, drop,
}
use wio_lite_ai.Shell.History.{History, copy, line_size, load_entry}
use wio_lite_ai.Shell.History.Packed.{Short, bytes, Packed, Packed-at, strlen-CStr, copy-CStr}
use wio_lite_ai.Shell.History.Moves.{Holds}

-- Up to an older line, or to the newest from the live one; down to a newer line, or to the live one.
abbrev pub older : ℕ → Option ℕ → Option ℕ
older zero o = o
older (suc n) none = some n
older (suc n) (some zero) = some zero
older (suc n) (some (suc k)) = some k

abbrev pub newer : ℕ → Option ℕ → Option ℕ
newer n none = none
newer n (some k) = if ltb (k + 1) n then some (k + 1) else none

-- The line that is recalled: none, or the one at an index.
abbrev pub At : History → List (List ℕ) → Option ℕ → Type 0
At h ws none = h.nav_on ≡ false
At h ws (some k) = (h.nav_on ≡ true) × (k < length ws) × (h.nav ≡ bytes (take k ws))

-- The line buffer has this string, and the cursor is at its end.
pub record Shows (h : History) (w : List ℕ) : Type 0 where
  pub text : CStr h.line 0 w
  pub room : length w < line_size
  pub len_is : h.len ≡ length w
  pub cur_is : h.cur ≡ length w

-- The line at an index, between those before it and those behind it.
pub record Parts (ws : List (List ℕ)) (k : ℕ) : Type 0 where
  pub here : List ℕ
  pub parted : ws ≡ take k ws ++ here ∷ drop (suc k) ws
  pub looked_up : get_elem? ws k ≡ some here
  pub one_more : bytes (take (suc k) ws) ≡ bytes (take k ws) + length here + 1
  pub long : length (take k ws) ≡ k

pub parts : (ws : List (List ℕ)) (k : ℕ) → k < length ws → Parts ws k
parts [] k h = absurd (omega arith)
parts (w ∷ ws) zero h = record {
  here = w;
  parted = refl;
  looked_up = refl;
  one_more = omega arith;
  long = refl;
}
parts (w ∷ ws) (suc k) h =
    let p = parts ws k (omega arith) in
    record {
      here = p.here;
      parted = ap (λ t. w ∷ t) p.parted;
      looked_up = p.looked_up;
      one_more = omega (arith, p.one_more);
      long = omega (arith, p.long);
    }

Short-get :
    (ws : List (List ℕ)) (k : ℕ) (w : List ℕ)
    → get_elem? ws k ≡ some w
    → Short ws
    → length w < line_size
Short-get [] k w e s = cc
Short-get (v ∷ ws) zero w e s = let x : v ≡ w = cc in subst (λ t. length t < line_size) x s.0
Short-get (v ∷ ws) (suc k) w e s = Short-get ws k w e s.1

load_entry_lem :
    (f : ℕ) (h : History) (off : ℕ) (w : List ℕ)
    → CStr h.hist off w
    → length w < line_size
    → line_size < f
    → (g : History) × (load_entry f h off ≡ some g)
      × Shows g w
      × (g ≡ record h { line = g.line; len = g.len; cur = g.cur })
unfolding load_entry
load_entry_lem f h off w s b lt =
    let g = record h {
      line = copy h.line 0 h.hist off (length w + 1);
      len = length w;
      cur = length w;
    } in
    let e = strlen-CStr f h.hist off w s (omega arith) in
    let left : length w % 2 ^ 16 ≡ length w = omega (arith, b) in
    (
      g,
      rw (e, load_entry, left) refl,
      record {
        text =
            copy-CStr h.line h.hist 0 off (length w + 1) 0 off w s (omega arith) (omega arith)
              (omega arith);
        room = b;
        len_is = refl;
        cur_is = refl;
      },
      refl,
    )

-- A recall of the line at an index.
pub record Recalls (m : Option History) (ws : List (List ℕ)) (k : ℕ) : Type 0 where
  pub after : History
  pub returns : m ≡ some after
  pub holds : Holds after ws
  pub at : At after ws (some k)
  pub word : List ℕ
  pub found : get_elem? ws k ≡ some word
  pub shows : Shows after word

pub load_Recalls :
    (f : ℕ) (h : History) (ws : List (List ℕ)) (k : ℕ)
    → Holds h ws
    → Short ws
    → k < length ws
    → line_size < f
    → (off : ℕ) → off ≡ bytes (take k ws)
    → Recalls (load_entry f (record h { nav = off; nav_on = true }) off) ws k
load_Recalls f h ws k c z lt b off e =
    let p = parts ws k lt in
    let h' = record h { nav = off; nav_on = true } in
    let k' : Packed h.hist 0 (take k ws ++ p.here ∷ drop (suc k) ws) h.used =
      subst (λ t. Packed h.hist 0 t h.used) p.parted c.packed in
    let s : CStr h.hist off p.here =
      subst (λ q. CStr h.hist q p.here) (omega (arith, e))
        (Packed-at h.hist 0 (take k ws) p.here (drop (suc k) ws) h.used k') in
    let (g, r, shown, same) =
      load_entry_lem f h' off p.here s (Short-get ws k p.here p.looked_up z) b in
    record {
      after = g;
      returns = r;
      holds = record { packed = rw same c.packed; fits = rw same (c.fits) };
      at = (ap (λ t. t.nav_on) same, lt, ap (λ t. t.nav) same ∙ e);
      word = p.here;
      found = p.looked_up;
      shows = shown;
    }
