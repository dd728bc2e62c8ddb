-- ===== src/Auth.antt =====
-- packages/server/src/auth: accounts, their administration, invites, sessions and password resets.
pub mod Model
pub mod Users
pub mod Admin
pub mod Session
pub mod Reset
pub mod Changes
pub mod Middleware
mod Tests
