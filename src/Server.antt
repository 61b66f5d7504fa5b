-- ===== src/Server.antt =====
-- request.cc: the server, from its configuration to its connections.
pub mod Config
pub mod Session
pub mod Main
pub mod Routes
pub mod Accept
pub mod Connections
pub mod EndToEnd
mod Samples
mod Tests
mod ConfigTests
