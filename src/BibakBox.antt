-- ===== src/BibakBox.antt =====
-- Final_HW6: the directory mirror, `BibakBOXServer.c` and `BibakBOXClient.c`.
pub mod Paths
pub mod Wire
pub mod Messages
pub mod Handlers
pub mod Clients
pub mod Tracking
pub mod Updates
pub mod Watch
pub mod Thread
pub mod Listing
pub mod Clearing
pub mod FirstCopy
mod Tests
