-- ===== src/Routes.antt =====
-- packages/server/src/routes: the handlers of the requests, behind their parsing.
pub mod Downloads
pub mod Accounts
pub mod Admin
pub mod Library
pub mod Events
pub mod Http
