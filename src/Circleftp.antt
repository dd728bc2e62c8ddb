-- ===== src/Circleftp.antt =====
-- packages/server/src/circleftp: what is read from the Circle FTP API, and the plan made of it.
pub mod Types
pub mod Client
pub mod Search
pub mod Probe
pub mod Posters
pub mod Text
pub mod Plan
