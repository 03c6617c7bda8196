-- ===== src/Shell/Output.antt =====
-- The staged output of shell/core/cli_printf.c, for an interactive instance (`fg` is NULL). Taking
-- the lock waits on a ThreadX mutex, and cli_tx_send_blocking hands bytes to the transport: both
-- answers are parameters, `Tx`, asked in turn.
pub mod Stream
mod Tests
use wio_lite_ai.Base.{
  ℕ, zero, suc, ◌+◌, not, Bool, true, false, List, [], ◌∷◌, ◌++◌, ◌==◌, leb, if◌then◌else◌, length,
}

-- Whether the n-th question for the lock, or for bytes to be sent, is granted.
pub record Tx : Type 0 where
  pub lock_ok : ℕ → Bool
  pub send_ok : ℕ → List ℕ → Bool

-- CLI_PRINTF_BUFFER_SIZE
abbrev pub out_size : ℕ
out_size = 32

-- `out_buf` up to `out_len`, the flag, what the transport has taken, and the questions asked.
pub record Console : Type 0 where
  pub staged : List ℕ
  pub tx_failed : Bool
  pub sent : List ℕ
  pub asked : ℕ

-- `cli_out_flush`
unfoldable pub flush : Tx → Console → Console
flush tx c =
    if length c.staged == 0
    then c
    else if c.tx_failed
    then record c { staged = [] }
    else if tx.send_ok c.asked c.staged
    then record c { staged = []; asked = c.asked + 1; sent = c.sent ++ c.staged }
    else record c { staged = []; asked = c.asked + 1; tx_failed = true }

-- `cli_out_putc`
unfoldable pub putc : Tx → Console → ℕ → Console
unfolding flush
putc tx c b =
    if c.tx_failed
    then c
    else if leb out_size (length c.staged + 1)
    then flush tx (record c { staged = c.staged ++ b ∷ [] })
    else record c { staged = c.staged ++ b ∷ [] }

-- `out_str`, and the loop of `cli_write`.
unfoldable pub puts : Tx → Console → List ℕ → Console
puts tx c [] = c
puts tx c (b ∷ bs) = puts tx (putc tx c b) bs

-- `cli_lock`
unfoldable pub take_lock : Tx → Console → Bool × Console
take_lock tx c = (tx.lock_ok c.asked, record c { asked = c.asked + 1 })

-- `cli_out_begin`
unfoldable pub out_begin : Tx → Console → Bool × Console
unfolding take_lock
out_begin tx c =
    let (ok, c') = take_lock tx c in
    if ok then (true, c') else (false, record c' { tx_failed = true })

-- `cli_write`; the result is true for 0.
unfoldable pub write_bytes : Tx → Console → List ℕ → Bool × Console
unfolding out_begin
write_bytes tx c bs =
    let (ok, c') = out_begin tx c in
    let c'' = flush tx (puts tx c' bs) in if ok then (not c''.tx_failed, c'') else (false, c')
