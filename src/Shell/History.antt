-- ===== src/Shell/History.antt =====
-- shell/core/cli_history.c: the command lines that a console remembers, packed one behind the other
-- in a byte buffer, and their recall into the line buffer. CLI_HISTORY_BUFFER_SIZE and
-- CLI_CMD_BUFFER_SIZE have their default values. The buffers begin at address 0 of memories of
-- their own; a line to add is the list of its bytes. Offsets are `uint16_t`s. A loop takes fuel,
-- and `none` is no fuel. Recall also repaints the line (cli_edit_redraw), which is left out.
pub mod Packed
pub mod Moves
pub mod Lines
pub mod Walks
pub mod Recall
mod Tests
use wio_lite_ai.Base.{
  ℕ, zero, suc, ◌+◌, ◌-◌, ◌%◌, ◌^◌, ◌&&◌, ◌||◌, not, Bool, true, false, Option, none, some, List,
  [], ◌∷◌, ◌==◌, leb, ltb, if◌then◌else◌, length, Mem, store, write,
}
use wio_lite_ai.Shell.Parse.Tree.{str_eq}

abbrev pub history_size : ℕ
history_size = 512

abbrev pub line_size : ℕ
line_size = 256

-- The fields of `struct cli_instance` that the file reads and writes.
pub record History : Type 0 where
  pub hist : Mem
  pub used : ℕ
  pub nav_on : Bool
  pub nav : ℕ
  pub line : Mem
  pub len : ℕ
  pub cur : ℕ

-- `memcpy` and `memmove`: `n` bytes from `src` of one memory to `dst` of another.
abbrev pub copy : Mem → ℕ → Mem → ℕ → ℕ → Mem
copy to dst from src n = λ q. if leb dst q && ltb q (dst + n) then from (src + (q - dst)) else to q

-- `while (i < hist_used && hist[i] != '\0') i++;` with `n` bytes left up to `hist_used`.
unfoldable pub skip_entry : ℕ → Mem → ℕ → ℕ
skip_entry zero m i = i
skip_entry (suc n) m i = let rest = skip_entry n m (i + 1) in if m i == 0 then i else rest

-- `hist_next_off`
unfoldable pub next_off : History → ℕ → ℕ
unfolding skip_entry
next_off h off =
    let i = skip_entry (h.used - off) h.hist off in
    if ltb i h.used then (i + 1) % 2 ^ 16 else h.used

-- The loop of `hist_newest_off` and `hist_prev_off`: from `start`, the last entry whose successor
-- is not before `limit`.
unfoldable pub last_before : ℕ → History → ℕ → ℕ → Option ℕ
last_before zero h limit start = none
last_before (suc f) h limit start =
    let next = next_off h start in
    elim (ltb next limit) [ true ↦ last_before f h limit next | false ↦ some start ]

unfoldable pub newest_off : ℕ → History → Option ℕ
newest_off f h = last_before f h h.used 0

unfoldable pub prev_off : ℕ → History → ℕ → Option ℕ
prev_off f h off = last_before f h off 0

unfoldable pub strlen : ℕ → Mem → ℕ → Option ℕ
strlen zero m p = none
strlen (suc f) m p = elim (m p == 0) [
  | true ↦ some 0
  | false ↦ elim (strlen f m (p + 1)) [ none ↦ none | some n ↦ some (n + 1) ]
]

-- `hist_load`
unfoldable pub load_entry : ℕ → History → ℕ → Option History
unfolding strlen
load_entry f h off = elim (strlen f h.hist off) [
  | none ↦ none
  | some l ↦
      some
        (record h { line = copy h.line 0 h.hist off (l + 1); len = l % 2 ^ 16; cur = l % 2 ^ 16 })
]

unfoldable pub recall : ℕ → History → Option ℕ → Option History
unfolding load_entry
recall f h none = none
recall f h (some target) = load_entry f (record h { nav = target; nav_on = true }) target

-- `cli_history_prev`
unfoldable pub prev : ℕ → History → Option History
unfolding newest_off prev_off recall
prev f h =
    if h.used == 0
    then some h
    else if not h.nav_on
    then recall f h (newest_off f h)
    else if h.nav == 0
    then some h
    else recall f h (prev_off f h h.nav)

-- `cli_history_next`
unfoldable pub next : ℕ → History → Option History
unfolding load_entry
next f h =
    let off = next_off h h.nav in
    if not h.nav_on
    then some h
    else if ltb off h.used
    then load_entry f (record h { nav = off }) off
    else some (record h { nav_on = false; len = 0; cur = 0; line = store h.line 0 0 })

-- The oldest entry goes.
unfoldable pub drop_oldest : History → History
drop_oldest h =
    let first = next_off h 0 in
    record h {
      hist = copy h.hist 0 h.hist first (h.used - first);
      used = (h.used - first) % 2 ^ 16;
    }

-- `while (hist_used + l + 1 > CLI_HISTORY_BUFFER_SIZE)`
unfoldable pub evict : ℕ → History → ℕ → Option History
unfolding drop_oldest
evict zero h l = none
evict (suc f) h l = elim (ltb history_size (h.used + l + 1)) [
  | true ↦ evict f (drop_oldest h) l
  | false ↦ some h
]

unfoldable pub append_entry : History → List ℕ → History
append_entry h line = record h {
  hist = store (write h.hist h.used line) (h.used + length line) 0;
  used = (h.used + length line + 1) % 2 ^ 16;
}

unfoldable pub is_newest : History → List ℕ → Option ℕ → Option Bool
is_newest h line none = none
is_newest h line (some off) = some (str_eq h.hist line off)

unfoldable pub evict_append : ℕ → History → List ℕ → Option History
unfolding evict append_entry
evict_append f h line = elim (evict f h (length line)) [
  | none ↦ none
  | some h' ↦ some (append_entry h' line)
]

-- `cli_history_add`
unfoldable pub add : ℕ → History → List ℕ → Option History
unfolding is_newest evict_append newest_off
add f h line =
    let l = length line in
    if l == 0 || leb line_size l || ltb history_size (l + 1)
    then some h
    else if h.used == 0
    then evict_append f h line
    else elim (is_newest h line (newest_off f h)) [
      | none ↦ none
      | some true ↦ some h
      | some false ↦ evict_append f h line
    ]
