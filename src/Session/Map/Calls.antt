-- ===== src/Session/Map/Calls.antt =====
-- The calls of a session map, one after another: the invariant, and how long a session lives.
use bsrvcore.Base.{ℕ, ◌≤◌, ◌<◌, ◌≡◌, ◌≢◌, refl, ◌∙◌, Bytes, List, [], ◌∷◌, Bool, some, arith, All}
use bsrvcore.Session.Map.Table.{lookup}
use bsrvcore.Session.Map.Cleaning.{IsValid}
use bsrvcore.Session.Map.Leases.{Keeps, Keeps-same}
use bsrvcore.Session.Map.{
  Entry, SessionMap, get_session, remove_session, set_session_timeout, set_background_cleaner,
  clean_in_background, set_cleaner_interval, set_default_session_timeout,
}
use bsrvcore.Session.Map.Steps.{
  IsGood, Every, IsGood-same, get_session-IsGood, set_session_timeout-IsGood, remove_session-IsGood,
  set_background_cleaner-IsGood, clean_in_background-IsGood,
}

pub data Call : Type 0 where
  gets removes : Bytes → Call
  sets_timeout : Bytes → ℕ → Call
  switches_cleaner : Bool → Call
  cleans_in_background : (running still_running : Bool) → Call
  sets_cleaner_interval sets_default_timeout : ℕ → Call

-- A call that begins at `now` and whose last reading of the clock is `later`.
pub record Event : Type 0 where
  pub now : ℕ
  pub later : ℕ
  pub call : Call

unfoldable pub call_map : ℕ → ℕ → Call → SessionMap → SessionMap
call_map now later (gets id) s = (get_session id now later s).0
call_map now later (removes id) s = (remove_session id later s).0
call_map now later (sets_timeout id timeout) s = set_session_timeout id timeout now later s
call_map now later (switches_cleaner allow) s = set_background_cleaner allow s
call_map now later (cleans_in_background running still) s =
    clean_in_background running still later s
call_map now later (sets_cleaner_interval interval) s = set_cleaner_interval interval s
call_map now later (sets_default_timeout timeout) s = set_default_session_timeout timeout s

abbrev pub run : List Event → SessionMap → SessionMap
run [] s = s
run (x ∷ xs) s = run xs (call_map x.now x.later x.call s)

-- The call does not remove the session.
abbrev pub Spares : Call → Bytes → Type 0
Spares (removes key) id = key ≢ id
Spares _ id = Unit {0}

call_map-IsGood :
    (now later : ℕ) (c : Call) (s : SessionMap) → IsGood later (Spares c) s (call_map now later c s)
unfolding call_map
call_map-IsGood now later (gets id) s = get_session-IsGood now later s id
call_map-IsGood now later (removes id) s = remove_session-IsGood now later s id
call_map-IsGood now later (sets_timeout id timeout) s =
    set_session_timeout-IsGood now later s id timeout
call_map-IsGood now later (switches_cleaner allow) s = set_background_cleaner-IsGood later s allow
call_map-IsGood now later (cleans_in_background running still) s =
    clean_in_background-IsGood later s running still
call_map-IsGood now later (sets_cleaner_interval interval) s =
    IsGood-same now later s Every _ refl refl
call_map-IsGood now later (sets_default_timeout timeout) s =
    IsGood-same now later s Every _ refl refl

-- Every history of calls of a session map keeps the expiry heap ordered, and keeps every session
-- scheduled in it at the expiry that the session has.
pub run-IsValid : (xs : List Event) (s : SessionMap) → IsValid s → IsValid (run xs s)
run-IsValid [] s v = v
run-IsValid (x ∷ xs) s v =
    run-IsValid xs (call_map x.now x.later x.call s)
      ((call_map-IsGood x.now x.later x.call s).valid v)

-- A session of a map that is valid outlives every history in which nobody removes it and each call
-- ends before the lease it had at the start: it is still there then, with the same context and no
-- shorter lease.
pub run-Keeps :
    (xs : List Event) (s : SessionMap) (id : Bytes) (e : Entry)
    → IsValid s
    → All (λ x. Spares x.call id × (x.later < e.expiry)) xs
    → lookup id s.map ≡ some e
    → Keeps id e (run xs s)
run-Keeps [] s id e v h there = Keeps-same id e s there
run-Keeps (x ∷ xs) s id e v h there =
    let good = call_map-IsGood x.now x.later x.call s in
    let k = good.kept v id e h.0.0 h.0.1 there in
    let rest =
      run-Keeps xs (call_map x.now x.later x.call s) id k.entry (good.valid v)
        (All-later xs id e k.entry k.lease h.1) k.found in
    record {
      entry = rest.entry;
      found = rest.found;
      context = rest.context ∙ k.context;
      lease = omega (arith, k.lease, rest.lease);
    }
  where
    All-later :
        (ys : List Event) (i : Bytes) (a b : Entry)
        → a.expiry ≤ b.expiry
        → All (λ y. Spares y.call i × (y.later < a.expiry)) ys
        → All (λ y. Spares y.call i × (y.later < b.expiry)) ys
    All-later [] i a b le k = tt
    All-later (y ∷ ys) i a b le k = ((k.0.0, omega (arith, k.0.1)), All-later ys i a b le k.1)
