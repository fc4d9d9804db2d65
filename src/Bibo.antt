-- ===== src/Bibo.antt =====
-- Midterm_HW3: the file server `biboServer.c` and its client `biboClient.c`.
pub mod Queue
pub mod Slots
pub mod Server
pub mod ReadFile
pub mod Requests
pub mod Client
pub mod Arrivals
pub mod FifoNames
mod Tests
