-- ===== src/Cli.antt =====
-- The command-line client (crates/kaigi-cli/src/main.rs): join links and what it makes of
-- arguments.
pub mod Percent
pub mod Args
pub mod Trim
pub mod Hex
pub mod Modes
pub mod Numbers
pub mod Link
