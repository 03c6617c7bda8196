-- ===== src/Shell/Edit.antt =====
-- The line editor, shell/core/cli_edit.c, for an interactive instance. State is the state,
-- Render what it draws, Buffer what it does to the line, Ops its operations, and Keys the machine
-- that the received bytes drive.
pub mod State
pub mod Render
pub mod Buffer
pub mod Ops
pub mod Keys
pub mod Splice
pub mod Text
pub mod Words
pub mod Keymap
pub mod Refine
pub mod Typing
pub mod Machine
pub mod Invariant
pub mod Always
mod Tests
