-- ===== src/Credserver.antt =====
-- Package credserver: the process that answers the machine's requests for credentials.
pub mod Process
pub mod Stopping
pub mod Pauses
pub mod Exit
pub mod Starting
pub mod Lookup
pub mod Serve
pub mod Sources
pub mod Known
pub mod Client
pub mod Variables
