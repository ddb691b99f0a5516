-- ===== src/Connection/Cookies.antt =====
-- Cookies, on both sides of a connection: what a server sets, what a client keeps and sends, and
-- what the server reads.
pub mod Server
pub mod Time
pub mod Jar
pub mod RoundTrip
pub mod Tests
