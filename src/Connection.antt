-- ===== src/Connection.antt =====
-- src/connection: what travels on a connection.
pub mod Text
pub mod Cookies
pub mod Task
pub mod Sse
pub mod Queue
pub mod Tests
