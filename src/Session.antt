-- ===== src/Session.antt =====
-- src/session: sessions with leases, and the heap that schedules their expiry.
pub mod Heap
pub mod Map
pub mod Tests
