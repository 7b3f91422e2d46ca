-- ===== src/Command.antt =====
-- cmd/: the commands of the program.
pub mod Json
mod Tests
