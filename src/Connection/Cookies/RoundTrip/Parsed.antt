-- ===== src/Connection/Cookies/RoundTrip/Parsed.antt =====
-- The cookie that a client makes of what a server wrote, with its expiry by cases.
use bsrvcore.Base.{ℕ, zero, suc, ◌+◌, Bytes, leb, if◌then◌else◌, [], Option, none, some}
use bsrvcore.Base.Clock.{epoch, wrap}
use bsrvcore.Base.Integers.{ℤ, pos, negsuc}
use bsrvcore.Connection.Cookies.Server.{ServerSetCookie, given}
use bsrvcore.Connection.Cookies.Time.{Tm, seconds}
use bsrvcore.Connection.Cookies.Jar.{Cookie}
use bsrvcore.Connection.Cookies.RoundTrip.Parsing.{expires_of, received}

-- The expiry of a cookie that is received at the time `now`. A Max-Age counts from there, and one
-- that is not positive is long over; without one, it is the date of Expires, if that is given.
abbrev pub expiry_at : Option ℤ → Option ℕ → ℕ → Option ℕ
expiry_at none date now = date
expiry_at (some (pos zero)) date now = some epoch
expiry_at (some (pos (suc n))) date now = some (wrap (now + seconds (suc n)))
expiry_at (some (negsuc n)) date now = some epoch

-- Its value, which is dropped where the server takes the cookie back: by a Max-Age that is not
-- positive, or, without one, by an Expires that is not after `now`.
abbrev pub value_at : Option ℤ → Option ℕ → ℕ → Bytes → Bytes
value_at none none now value = value
value_at none (some date) now value = if leb date now then [] else value
value_at (some (pos zero)) date now value = []
value_at (some (pos (suc n))) date now value = value
value_at (some (negsuc n)) date now value = []

module _ (to_string : ℤ → Bytes) (stoll : Bytes → Option ℤ) (get_time : Bytes → Option Tm) where
  -- The date in the Expires of a cookie, if it has one that can be read.
  abbrev pub date_of : ServerSetCookie → Option ℕ
  date_of c = expires_of to_string stoll get_time c.expiry none

  abbrev pub parsed : Bytes → Bytes → ServerSetCookie → ℕ → Cookie
  parsed host target c now = record (received to_string stoll get_time host target c) {
    value = value_at c.max_age (date_of c) now (given c.value);
    expiry = expiry_at c.max_age (date_of c) now;
  }
