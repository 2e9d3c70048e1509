-- ===== src/Yarn.antt =====
-- YarnBackend.go: a backend that serves one container of its own, the nide manager of YARN, and
-- hands every other call on to the backend that it wraps.
mod Tests
pub mod Nide
pub mod Server
pub mod Handles
pub mod Bulk
pub mod Transparent
pub mod Process
pub mod Linux
