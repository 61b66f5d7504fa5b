-- ===== src/Older.antt =====
-- The programs that the repository had before the server of request.cc.
pub mod Hello
pub mod EchoServer
pub mod Printer
pub mod Starting
pub mod Reply
pub mod FileHandler
pub mod ParserHeader
mod Tests
