-- ===== src/Downloads.antt =====
-- packages/server/src/downloads: the download worker and what it stands on.
pub mod Paths
pub mod Disk
pub mod Fetcher
pub mod Model
pub mod Service
pub mod Listing
pub mod Speed
pub mod Dto
pub mod Rows
pub mod Kept
pub mod Job
pub mod Progress
pub mod Queue
