-- ===== src/Route.antt =====
-- src/route: the route table and what it is built from.
pub mod Segments
pub mod Validator
pub mod Layer
pub mod Registry
pub mod Match
pub mod Mount
pub mod Tests
