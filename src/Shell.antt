-- ===== src/Shell.antt =====
-- The command-line shell of shell/core.
pub mod Token
pub mod Segment
pub mod Background
pub mod Parse
pub mod Number
pub mod Address
pub mod History
pub mod Output
pub mod Edit
pub mod Print
pub mod Complete
