-- ===== src/Session/Tests.antt =====
-- The session map at concrete histories: runs of the code, and the laws applied where their
-- assumptions hold.
use bsrvcore.Base.{
  ℕ, zero, suc, ◌+◌, ◌-◌, ◌^◌, max, ◌<◌, codes, bytes_eq, List, [], ◌∷◌, none, some, true, false,
  ◌≡◌, refl, arith,
}
use bsrvcore.Session.Heap.{up_loop, push, down_loop, pop}
use bsrvcore.Session.Heap.Order.{IsHeap}
use bsrvcore.Session.Heap.Laws.{IsHeapOf, Pushed, Popped, push_lem, pop_lem}
use bsrvcore.Session.Map.Table.{lookup, emplace, assign, erase}
use bsrvcore.Session.Map.Cleaning.{expiry_of, IsValid}
use bsrvcore.Session.Map.Leases.{thorough_clean-live, Keeps}
use bsrvcore.Session.Map.Calls.{
  Event, gets, removes, sets_timeout, cleans_in_background, call_map, run, run-IsValid, run-Keeps,
}
use bsrvcore.Session.Map.Access.{
  Holds, get_session-Holds, set_session_timeout-Holds, get_session_stale,
}
use bsrvcore.Session.Map.{
  Entry, KeyEntry, comes_after, blank, SessionMap, milliseconds, min_session_timeout, deadline,
  cleaner_wait, new_session_map, schedule, is_due, clean_top, clean_loop, short_clean,
  thorough_clean, touch_session, create_session, get_session, remove_session, extend_session,
  set_session_timeout, set_cleaner, clean_in_background,
}

sessions : Unit {0}
unfolding bytes_eq up_loop push down_loop pop lookup emplace assign erase schedule is_due clean_top
    clean_loop short_clean thorough_clean touch_session create_session get_session remove_session
    extend_session set_session_timeout deadline cleaner_wait set_cleaner clean_in_background
    call_map
sessions = tt

abbrev key_at_time : ℕ → KeyEntry
key_at_time t = record { id = codes "k"; expiry = t }

abbrev small_heap : List KeyEntry
small_heap = blank ∷ key_at_time 2 ∷ key_at_time 5 ∷ key_at_time 3 ∷ []

small_heap-IsHeapOf : IsHeapOf blank expiry_of small_heap
small_heap-IsHeapOf = record { based = omega arith; ordered = at }
  where
    at : IsHeap blank expiry_of small_heap
    at zero p q = absurd (omega arith)
    at (suc zero) p q = absurd (omega arith)
    at (suc (suc zero)) p q = omega arith
    at (suc (suc (suc zero))) p q = omega arith
    at (suc (suc (suc (suc c)))) p q = absurd (omega arith)

push_lem_example :
    Pushed blank expiry_of small_heap
      (key_at_time 1)
      (push blank comes_after small_heap (key_at_time 1))
push_lem_example =
    push_lem blank expiry_of comes_after (λ x y. refl) small_heap (key_at_time 1)
      small_heap-IsHeapOf

pop_lem_example : Popped blank expiry_of small_heap (pop blank comes_after small_heap)
pop_lem_example =
    pop_lem blank expiry_of comes_after (λ x y. refl) small_heap small_heap-IsHeapOf (omega arith)

new_session_map-IsValid : IsValid new_session_map
unfolding lookup
new_session_map-IsValid = record {
  heap = record { based = omega arith; ordered = λ c p q. absurd (omega arith) };
  covered = λ id e h. cc;
}

-- One session, asked for at the time zero, and what its entry is.
abbrev opened : SessionMap
opened =
    run (record { now = 0; later = 0; call = gets (codes "s") } ∷ [])
      (record new_session_map { default_timeout = 2 })

abbrev entry : Entry
entry = record { context = 0; expiry = 1000000000 }

-- A history: a second session, a longer lease, and a background cleaning.
abbrev history : List Event
history =
    record { now = 5; later = 6; call = gets (codes "st") }
    ∷ record { now = 7; later = 8; call = sets_timeout (codes "s") 3000 }
    ∷ record { now = 9; later = 9; call = removes (codes "st") }
    ∷ record { now = 10; later = 11; call = cleans_in_background true false }
    ∷ []

opened-IsValid : IsValid opened
opened-IsValid =
    run-IsValid (record { now = 0; later = 0; call = gets (codes "s") } ∷ [])
      (record new_session_map { default_timeout = 2 })
      (record { heap = new_session_map-IsValid.heap; covered = new_session_map-IsValid.covered })

opened_holds : lookup (codes "s") opened.map ≡ some entry
unfolding sessions
opened_holds = refl

session_tests :
    (lookup (codes "s") (run history opened).map
      ≡ some (record { context = 0; expiry = 3000000007 }))
    × (lookup (codes "st") (run history opened).map ≡ none)
    × (pop blank comes_after small_heap
        ≡ (key_at_time 2, blank ∷ key_at_time 3 ∷ key_at_time 5 ∷ []))
    × ((thorough_clean 2000000000 opened).map ≡ [])
unfolding sessions
session_tests = (refl, refl, refl, refl)

run-IsValid_example : IsValid (run history new_session_map)
run-IsValid_example = run-IsValid history new_session_map new_session_map-IsValid

run-Keeps_example : Keeps (codes "s") entry (run history opened)
run-Keeps_example =
    run-Keeps history opened (codes "s") entry opened-IsValid
      ((tt, omega arith), ((tt, omega arith), ((λ e. cc, omega arith), ((tt, omega arith), tt))))
      opened_holds

thorough_clean-live_example : 50 < 1000000000
unfolding sessions
thorough_clean-live_example = thorough_clean-live 50 opened (codes "s") entry opened-IsValid refl

get_session-Holds_example :
    Holds
      (codes "s")
      (get_session (codes "s") 100 101 opened).1
      (100 + milliseconds opened.default_timeout)
      (get_session (codes "s") 100 101 opened).0
unfolding sessions
get_session-Holds_example =
    get_session-Holds (codes "s") 100 101 opened opened-IsValid (omega arith) (omega arith)
      (omega arith)

set_session_timeout-Holds_example :
    (context : ℕ) × Holds
      (codes "s")
      context
      (100 + milliseconds (max min_session_timeout 5))
      (set_session_timeout (codes "s") 5 100 101 opened)
set_session_timeout-Holds_example =
    set_session_timeout-Holds (codes "s") 5 100 101 opened opened-IsValid (omega arith)
      (omega arith)

get_session_stale_example :
    ((get_session (codes "s") 2000000000 2000000001 opened).1 ≡ opened.next_context)
    × (lookup (codes "s") (get_session (codes "s") 2000000000 2000000001 opened).0.map ≡ some entry)
    × ((get_session
          (codes "s")
          3000000000
          3000000001
          (get_session (codes "s") 2000000000 2000000001 opened).0).1
        ≡ suc opened.next_context)
unfolding sessions
get_session_stale_example =
    get_session_stale (codes "s") entry 2000000000 2000000001 3000000000 3000000001 opened
      (record {
        valid = opened-IsValid;
        there = opened_holds;
        run_out = omega arith;
        small = omega arith;
      })
      (omega arith)

overflow_tests :
    (deadline (2 ^ 63 + 5000000) (2 ^ 64 - 1) ≡ 2 ^ 63 + 4000000)
    × (cleaner_wait (2 ^ 64 - 1) ≡ 1000)
    × (cleaner_wait 5000 ≡ 5000)
unfolding sessions
overflow_tests = (refl, refl, refl)
