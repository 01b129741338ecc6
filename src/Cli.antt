-- ===== src/Cli.antt =====
-- internal/cli: the parts of the command line that decide.
pub mod Ignore
mod Tests
