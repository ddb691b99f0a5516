-- ===== src/Session/Map/Access.antt =====
-- What a caller gets from a session map, and what the map holds afterwards.
use bsrvcore.Base.{
  ℕ, suc, ◌+◌, ◌*◌, max, ◌≤◌, ◌<◌, ◌≡◌, refl, ◌∙◌, ap, Bytes, bytes_eq_refl, ltb, ◌==◌, length,
  List, [], ◌∷◌, true, false, Option, none, some, arith, Bool-cases, Option-cases, inl, inr, subst,
}
use bsrvcore.Base.Clock.{IsInRange}
use bsrvcore.Session.Heap.{get_size}
use bsrvcore.Session.Map.Table.{lookup, emplace, lookup-emplace, lookup-assign}
use bsrvcore.Session.Map.Cleaning.{IsValid, short_clean-Cleans, schedule_lem}
use bsrvcore.Session.Map.Leases.{
  create_session-IsValid, touch_session-IsValid, extend_session-IsValid,
}
use bsrvcore.Session.Map.{
  Entry, SessionMap, milliseconds, min_session_timeout, deadline, schedule, short_clean,
  touch_session, create_session, get_session, extend_session, set_session_timeout,
}

-- The map holds the session with this context, and a lease up to `until` at least.
pub record Holds (id : Bytes) (context until : ℕ) (s : SessionMap) : Type 0 where
  pub entry : Entry
  pub found : lookup id s.map ≡ some entry
  pub same : entry.context ≡ context
  pub leased : until ≤ entry.expiry

Holds-short_clean :
    (id : Bytes) (context until later : ℕ) (s : SessionMap)
    → IsValid s
    → later < until
    → Holds id context until s
    → Holds id context until (short_clean later s)
Holds-short_clean id context until later s v live h = record {
  entry = h.entry;
  found = (short_clean-Cleans later s v).lost id h.entry h.found (omega (arith, h.leased));
  same = h.same;
  leased = h.leased;
}

create_session-Holds :
    (id : Bytes) (new_expiry : ℕ) (s : SessionMap)
    → lookup id s.map ≡ none
    → Holds id s.next_context new_expiry (create_session id new_expiry s)
unfolding create_session
create_session-Holds id new_expiry s missing = record {
  entry = record { context = s.next_context; expiry = new_expiry };
  found =
      lookup-emplace id id (record { context = s.next_context; expiry = new_expiry }) s.map
      ∙ rw (bytes_eq_refl id, missing) refl;
  same = refl;
  leased = omega arith;
}

touch_session-Holds :
    (id : Bytes) (e : Entry) (now : ℕ) (s : SessionMap)
    → lookup id s.map ≡ some e
    → Holds id e.context (deadline now s.default_timeout) (touch_session id e now s)
unfolding touch_session
touch_session-Holds id e now s there =
    let new_expiry = max (deadline now s.default_timeout) e.expiry in
    record {
      entry = record e { expiry = new_expiry };
      found =
          lookup-assign id id (record e { expiry = new_expiry }) s.map e there
          ∙ rw (bytes_eq_refl id) refl;
      same = refl;
      leased = omega arith;
    }

extend_session-Holds :
    (id : Bytes) (e : Entry) (target : ℕ) (s : SessionMap)
    → lookup id s.map ≡ some e
    → Holds id e.context target (extend_session id e target s)
unfolding extend_session
extend_session-Holds id e target s there = elim (Bool-cases (max e.expiry target == e.expiry)) [
  | inl c ↦ rw c (record { entry = e; found = there; same = refl; leased = ground (arith, c) })
  | inr c ↦ rw c (record {
    entry = record e { expiry = max e.expiry target };
    found =
        lookup-assign id id (record e { expiry = max e.expiry target }) s.map e there
        ∙ rw (bytes_eq_refl id) refl;
    same = refl;
    leased = omega arith;
  })
]

-- Within the range of the clock a deadline is the sum that it is meant to be.
pub deadline_lem :
    (now timeout : ℕ)
    → IsInRange (now + milliseconds timeout)
    → deadline now timeout ≡ now + milliseconds timeout
unfolding deadline
deadline_lem now timeout h = omega (arith, h)

-- The session is unknown, or its lease runs past `now`.
abbrev pub IsUnknownOrLive : ℕ → Option Entry → Type 0
IsUnknownOrLive now none = Unit {0}
IsUnknownOrLive now (some e) = now < e.expiry

-- `GetSession` of an unknown or live session of a valid map returns a context that the map then
-- holds under this id, leased for the default timeout at least, if the call ends before that lease
-- does, and the 64-bit clock can hold the time that lies the default timeout, or one second if that
-- is more, ahead.
pub get_session-Holds :
    (id : Bytes) (now later : ℕ) (s : SessionMap)
    → IsValid s
    → IsUnknownOrLive now (lookup id s.map)
    → IsInRange (now + milliseconds (max min_session_timeout s.default_timeout))
    → later < now + milliseconds s.default_timeout
    → Holds id
        (get_session id now later s).1
        (now + milliseconds s.default_timeout)
        (get_session id now later s).0
unfolding get_session
get_session-Holds id now later s v fine range live =
    let until = now + milliseconds s.default_timeout in
    let least = max min_session_timeout s.default_timeout in
    let target = deadline now least in
    let late : until ≤ target = omega (arith, deadline_lem now least range) in
    let exact : deadline now s.default_timeout ≡ until =
      deadline_lem now s.default_timeout (omega (arith, range)) in
    elim (Option-cases (lookup id s.map)) [
      | inl missing ↦
          let made = create_session-Holds id target s missing in
          let made' : Holds id s.next_context until (create_session id target s) = record {
            entry = made.entry;
            found = made.found;
            same = made.same;
            leased = omega (arith, made.leased, late);
          } in
          rw (missing, get_session)
            (Holds-short_clean id s.next_context until later (create_session id target s)
              (create_session-IsValid id target s v) live made')
      | inr (e, there) ↦
          let c : ltb now e.expiry ≡ true =
            let f : IsUnknownOrLive now (some e) = rw there at fine in ground arith in
          rw (there, c, get_session)
            (Holds-short_clean id e.context until later (touch_session id e now s)
              (touch_session-IsValid id e now s there v) live
              (subst (λ t. Holds id e.context t (touch_session id e now s)) exact
                (touch_session-Holds id e now s there)))
    ]

-- `SetSessionTimeout` leases up to its deadline, whatever that is.
set_session_timeout-deadline :
    (id : Bytes) (timeout now later : ℕ) (s : SessionMap)
    → IsValid s
    → later < deadline now (max min_session_timeout timeout)
    → (context : ℕ) × Holds id context
        (deadline now (max min_session_timeout timeout))
        (set_session_timeout id timeout now later s)
unfolding set_session_timeout
set_session_timeout-deadline id timeout now later s v live =
    let target = deadline now (max min_session_timeout timeout) in
    elim (Option-cases (lookup id s.map)) [
      | inl missing ↦ (
        s.next_context,
        rw (missing, set_session_timeout)
            (Holds-short_clean id s.next_context target later (create_session id target s)
              (create_session-IsValid id target s v) live
              (create_session-Holds id target s missing)),
      )
      | inr (e, there) ↦ (
        e.context,
        rw (there, set_session_timeout)
            (Holds-short_clean id e.context target later (extend_session id e target s)
              (extend_session-IsValid id e target s there v) live
              (extend_session-Holds id e target s there)),
      )
    ]

-- After `SetSessionTimeout` on a valid map the session is there, known before or not, with a lease
-- of at least the given timeout and of at least one second, if the 64-bit clock can hold the end of
-- that lease, and the call ends before it.
pub set_session_timeout-Holds :
    (id : Bytes) (timeout now later : ℕ) (s : SessionMap)
    → IsValid s
    → IsInRange (now + milliseconds (max min_session_timeout timeout))
    → later < now + milliseconds (max min_session_timeout timeout)
    → (context : ℕ) × Holds id context
        (now + milliseconds (max min_session_timeout timeout))
        (set_session_timeout id timeout now later s)
set_session_timeout-Holds id timeout now later s v range live =
    let exact = deadline_lem now (max min_session_timeout timeout) range in
    subst (λ t. (context : ℕ) × Holds id context t (set_session_timeout id timeout now later s))
      exact (set_session_timeout-deadline id timeout now later s v (omega (arith, exact, live)))

length-emplace :
    (key : Bytes) (v old : Entry) (m : List (Bytes × Entry))
    → lookup key m ≡ some old
    → length (emplace key v m) ≡ length m
unfolding lookup emplace
length-emplace key v old [] h = cc
length-emplace key v old ((k, w) ∷ m) h = ground (arith, length-emplace key v old m)

-- What `GetSession` does where the session is there and its lease has run out, while the heap is
-- too small for a cleaning.
pub record IsStale (id : Bytes) (e : Entry) (now : ℕ) (s : SessionMap) : Type 0 where
  pub valid : IsValid s
  pub there : lookup id s.map ≡ some e
  pub run_out : e.expiry ≤ now
  pub small : get_size s.pqueue < length s.map * 2

create_session-stale :
    (id : Bytes) (e : Entry) (now later target : ℕ) (s : SessionMap)
    → IsStale id e now s
    → (lookup id (create_session id target s).map ≡ some e)
      × (short_clean later (create_session id target s) ≡ create_session id target s)
unfolding create_session short_clean
create_session-stale id e now later target s x =
    let made : Entry = record { context = s.next_context; expiry = target } in
    let sized = (schedule_lem id target s.pqueue x.valid.heap).sized in
    let kept = length-emplace id made e s.map x.there in
    let quiet : ltb (length (emplace id made s.map) * 2) (get_size (schedule id target s.pqueue))
        ≡ false =
      ground (arith, sized, kept, x.small, x.valid.heap.based) in
    (lookup-emplace id id made s.map ∙ rw (bytes_eq_refl id, x.there) refl, rw quiet refl)

get_session-run_out :
    (id : Bytes) (e : Entry) (now later : ℕ) (s : SessionMap)
    → lookup id s.map ≡ some e
    → e.expiry ≤ now
    → get_session id now later s ≡ (
      short_clean later
          (create_session id (deadline now (max min_session_timeout s.default_timeout)) s),
      s.next_context,
    )
unfolding get_session
get_session-run_out id e now later s there out =
    let c : ltb now e.expiry ≡ false = ground arith in rw (there, c, get_session) refl

-- `GetSession` of a session whose lease has run out, and that is still in the map, while the heap
-- is too small for a cleaning, returns a new context and does not store it: the map still holds the
-- old context with the old expiry, and a next call after that expiry returns yet another new
-- context.
pub get_session_stale :
    (id : Bytes) (e : Entry) (now later now' later' : ℕ) (s : SessionMap)
    → IsStale id e now s
    → e.expiry ≤ now'
    → ((get_session id now later s).1 ≡ s.next_context)
      × (lookup id (get_session id now later s).0.map ≡ some e)
      × ((get_session id now' later' (get_session id now later s).0).1 ≡ suc s.next_context)
get_session_stale id e now later now' later' s x out =
    let target = deadline now (max min_session_timeout s.default_timeout) in
    let first = get_session-run_out id e now later s x.there x.run_out in
    let (held, quiet) = create_session-stale id e now later target s x in
    let after : (get_session id now later s).0 ≡ create_session id target s =
      ap (λ r. r.0) first ∙ quiet in
    let held' : lookup id (get_session id now later s).0.map ≡ some e =
      ap (λ (t : SessionMap). lookup id t.map) after ∙ held in
    (
      ap (λ r. r.1) first,
      held',
      ap (λ r. r.1) (get_session-run_out id e now' later' (get_session id now later s).0 held' out)
          ∙ ap (λ (t : SessionMap). t.next_context) after
          ∙ (unfold create_session in refl),
    )
