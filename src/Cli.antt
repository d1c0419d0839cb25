-- ===== src/Cli.antt =====
-- src/cli: the arguments of the command line.
pub mod Names
pub mod Options
pub mod Presets
pub mod Args
