-- ===== src/Base/Clock.antt =====
-- Time points of the chrono clocks: the count of nanoseconds, an `int64_t`, plus 2^63, so that no
-- time is negative. Arithmetic on the counts wraps, as in two's complement; C++ itself leaves open
-- what a signed overflow does.
use Prim.Native.Nat.{ℕ, ◌^◌, ◌%◌, ◌<◌}

abbrev pub epoch : ℕ
epoch = 2 ^ 63

abbrev pub wrap : ℕ → ℕ
wrap t = t % 2 ^ 64

-- An `int64_t` count of nanoseconds can hold the time.
abbrev pub IsInRange : ℕ → Type 0
IsInRange t = t < 2 ^ 64
