-- ===== src/Auth.antt =====
-- Package auth: public User IDs and login rules.
pub mod UserId
pub mod LoginRules
pub mod Accounts
pub mod AccessToken
mod Tests
