-- ===== src/Policy.antt =====
-- Package policy: fetch permissions, visibility and the address guard.
pub mod Fetch
pub mod Visibility
pub mod Pattern
pub mod Ssrf
mod Tests
