-- ===== src/Session/Map.antt =====
-- src/session/session_map.cc, session_map_cleaner.cc and the two entry classes. The clock's
-- readings are arguments, in the order in which a call reads it; a call holds the lock for all of
-- its body, so a call is one step. Contexts are known by their identity. Time points are in ticks
-- of the steady clock, as in Base/Clock. A timeout is a `size_t`, below 2^64.
pub mod Table
pub mod Cleaning
pub mod Leases
pub mod Steps
pub mod Calls
pub mod Access
pub mod Overflow
use bsrvcore.Base.{
  ℕ, zero, suc, ◌+◌, ◌*◌, ◌^◌, max, Bytes, bytes_eq, length, leb, ltb, ◌==◌, not, ◌&&◌,
  if◌then◌else◌, List, [], ◌∷◌, Bool, true, false, Option, none, some,
}
use bsrvcore.Base.Clock.{epoch, wrap}
use bsrvcore.Session.Heap.{push, pop, top, get_size, heap_is_empty, empty_heap}
use Table.{lookup, emplace, assign, erase}

-- `SessionContextEntry`.
pub record Entry : Type 0 where
  pub context : ℕ
  pub expiry : ℕ

-- `SessionKeyHeapEntry`; `comes_after` is its `operator<`, by which the heap has the earliest
-- expiry on top.
pub record KeyEntry : Type 0 where
  pub id : Bytes
  pub expiry : ℕ

abbrev pub comes_after : KeyEntry → KeyEntry → Bool
comes_after this other = ltb other.expiry this.expiry

abbrev pub blank : KeyEntry
blank = record { id = []; expiry = epoch }

pub record SessionMap : Type 0 where
  pub map : List (Bytes × Entry)
  pub pqueue : List KeyEntry
  pub cleaner_interval : ℕ
  pub default_timeout : ℕ
  pub allow_cleaner : Bool
  -- The wait of the cleanup timer, in milliseconds, where one is pending.
  pub timer : Option ℕ
  -- Identities from here on have not been given to any context.
  pub next_context : ℕ

abbrev pub milliseconds : ℕ → ℕ
milliseconds t = t * 1000000

-- `now + std::chrono::milliseconds(timeout)`. The `size_t` becomes a signed 64-bit count, that of
-- milliseconds becomes one of nanoseconds, and the sum is one again: all of it is modulo 2^64.
unfoldable pub deadline : ℕ → ℕ → ℕ
deadline now timeout = wrap (now + milliseconds timeout)

abbrev pub min_session_timeout : ℕ
min_session_timeout = 1000

abbrev pub new_session_map : SessionMap
new_session_map = record {
  map = [];
  pqueue = empty_heap blank comes_after;
  cleaner_interval = 1000 * 60 * 30;
  default_timeout = 1000 * 60 * 60 * 2;
  allow_cleaner = false;
  timer = none;
  next_context = 0;
}

unfoldable pub schedule : Bytes → ℕ → List KeyEntry → List KeyEntry
schedule id expiry pqueue = push blank comes_after pqueue (record { id = id; expiry = expiry })

-- The body of both cleaning loops: the top leaves the heap, and takes its session along if the
-- session's expiry is still the one that was scheduled.
unfoldable pub is_due : Option Entry → ℕ → Bool
is_due none expiry = false
is_due (some e) expiry = e.expiry == expiry

unfoldable pub clean_top : SessionMap → SessionMap
unfolding is_due
clean_top s =
    let (key_entry, rest) = pop blank comes_after s.pqueue in
    record s {
      map =
          if is_due (lookup key_entry.id s.map) key_entry.expiry
          then erase key_entry.id s.map
          else s.map;
      pqueue = rest;
    }

-- The test of both loops, but for the count of `ShortClean`.
abbrev pub has_expired_top : ℕ → SessionMap → Bool
has_expired_top now s =
    not (heap_is_empty s.pqueue) && leb (top blank comes_after s.pqueue).expiry now

unfoldable pub clean_loop : ℕ → ℕ → SessionMap → SessionMap
clean_loop zero now s = s
clean_loop (suc rounds) now s =
    let rest = clean_loop rounds now (clean_top s) in if has_expired_top now s then rest else s

-- `ShortClean`: at most eight rounds, and none while the heap is small. (The vector's capacity,
-- which it may shrink, is not part of the model.)
unfoldable pub short_clean : ℕ → SessionMap → SessionMap
short_clean now s =
    let cleaned = clean_loop 8 now s in
    if ltb (length s.map * 2) (get_size s.pqueue) then cleaned else s

-- `ThoroughClean`: each round takes one element off the heap.
unfoldable pub thorough_clean : ℕ → SessionMap → SessionMap
thorough_clean now s = clean_loop (length s.pqueue) now s

-- The live branch of `GetSession`, for the entry `e` that it found.
unfoldable pub touch_session : Bytes → Entry → ℕ → SessionMap → SessionMap
touch_session id e now s =
    let new_expiry = max (deadline now s.default_timeout) e.expiry in
    record s {
      map = assign id (record e { expiry = new_expiry }) s.map;
      pqueue = if new_expiry == e.expiry then s.pqueue else schedule id new_expiry s.pqueue;
    }

-- The branches that make a context: `emplace` keeps an entry that is there.
unfoldable pub create_session : Bytes → ℕ → SessionMap → SessionMap
create_session id new_expiry s = record s {
  map = emplace id (record { context = s.next_context; expiry = new_expiry }) s.map;
  pqueue = schedule id new_expiry s.pqueue;
  next_context = suc s.next_context;
}

unfoldable pub is_live : ℕ → Option Entry → Bool
is_live now none = false
is_live now (some e) = ltb now e.expiry

abbrev pub context_or : ℕ → Option Entry → ℕ
context_or fresh none = fresh
context_or fresh (some e) = e.context

-- `GetSession`, both overloads; `now` is its own reading of the clock, `later` that of `ShortClean`.
unfoldable pub get_session : Bytes → ℕ → ℕ → SessionMap → SessionMap × ℕ
get_session id now later s = elim (lookup id s.map) [
  | none ↦ (
    short_clean later
        (create_session id (deadline now (max min_session_timeout s.default_timeout)) s),
    s.next_context,
  )
  | some e ↦
      if ltb now e.expiry then (short_clean later (touch_session id e now s), e.context) else (
        short_clean later
            (create_session id (deadline now (max min_session_timeout s.default_timeout)) s),
        s.next_context,
      )
]

abbrev pub is_known : Option Entry → Bool
is_known none = false
is_known (some e) = true

-- `RemoveSession`, both overloads.
unfoldable pub remove_session : Bytes → ℕ → SessionMap → SessionMap × Bool
remove_session id later s =
    (short_clean later (record s { map = erase id s.map }), is_known (lookup id s.map))

-- The branch of `SetSessionTimeout` for a known session.
unfoldable pub extend_session : Bytes → Entry → ℕ → SessionMap → SessionMap
extend_session id e target s =
    let new_expiry = max e.expiry target in
    if new_expiry == e.expiry then s else record s {
      map = assign id (record e { expiry = new_expiry }) s.map;
      pqueue = schedule id new_expiry s.pqueue;
    }

-- `SetSessionTimeout`, both overloads.
unfoldable pub set_session_timeout : Bytes → ℕ → ℕ → ℕ → SessionMap → SessionMap
set_session_timeout id timeout now later s =
    let target = deadline now (max min_session_timeout timeout) in
    short_clean later (elim (lookup id s.map) [
      | none ↦ create_session id target s
      | some e ↦ extend_session id e target s
    ])

-- `std::max<std::chrono::milliseconds>` of the least timeout and the interval: the counts are
-- signed, so that a `size_t` from 2^63 on counts as negative.
unfoldable pub cleaner_wait : ℕ → ℕ
cleaner_wait interval =
    if ltb interval (2 ^ 63) then max min_session_timeout interval else min_session_timeout

-- `SetCleaner`.
unfoldable pub set_cleaner : SessionMap → SessionMap
set_cleaner s =
    if s.allow_cleaner then record s { timer = some (cleaner_wait s.cleaner_interval) } else s

unfoldable pub set_background_cleaner : Bool → SessionMap → SessionMap
set_background_cleaner true s =
    if s.allow_cleaner then s else set_cleaner (record s { allow_cleaner = true })
set_background_cleaner false s =
    if s.allow_cleaner then record s { allow_cleaner = false; timer = none } else s

-- The timer fires. `running` is what the callback sees of the server, and `still_running` what the
-- posted job sees of it; the wait is over.
unfoldable pub clean_in_background : Bool → Bool → ℕ → SessionMap → SessionMap
clean_in_background running still_running now s =
    let waited = record s { timer = none } in
    let cleaned =
      if ltb (get_size waited.pqueue) (length waited.map * 8)
      then short_clean now waited
      else thorough_clean now waited in
    if running
    then (if cleaned.allow_cleaner && still_running then set_cleaner cleaned else cleaned)
    else waited

abbrev pub set_cleaner_interval : ℕ → SessionMap → SessionMap
set_cleaner_interval interval s = record s { cleaner_interval = interval }

abbrev pub set_default_session_timeout : ℕ → SessionMap → SessionMap
set_default_session_timeout timeout s = record s { default_timeout = timeout }
