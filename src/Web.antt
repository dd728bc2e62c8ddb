-- ===== src/Web.antt =====
-- packages/web/src: what the browser keeps of the server's state, and what its pages offer.
pub mod Live
pub mod Jobs
pub mod Title
pub mod Users
pub mod Client
pub mod SignedIn
