-- ===== src/Server/Service.antt =====
-- server/internal/service: who may deploy and manage a function, and what a deploy writes.
pub mod Access
pub mod Publish
pub mod Deploy
pub mod Manage
mod Tests
