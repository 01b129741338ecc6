-- ===== src/Server/Oauth.antt =====
-- server/internal/oauth, the token endpoint, over the tables that it keeps.
pub mod Grants
pub mod Codes
pub mod Request
pub mod Token
pub mod Traffic
pub mod Refresh
pub mod Redemption
mod Tests
