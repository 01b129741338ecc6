-- ===== src/Runtime.antt =====
-- Package runtime: the warm pools of function versions.
pub mod Manager
mod Tests
