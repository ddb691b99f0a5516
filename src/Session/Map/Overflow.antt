-- ===== src/Session/Map/Overflow.antt =====
-- What becomes of a timeout that the signed 64-bit counts of the clock read as negative.
