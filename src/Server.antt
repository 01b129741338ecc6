-- ===== src/Server.antt =====
-- server/internal: the parts of the server that decide, count and record.
pub mod Authz
pub mod Pool
pub mod RateLimit
pub mod LogCapture
pub mod Effective
pub mod Oauth
pub mod Functions
pub mod Service
mod Tests
