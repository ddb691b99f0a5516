-- ===== src/Session/Map/Leases.antt =====
-- Leases: what each call does to the sessions that are there.
use bsrvcore.Base.{
  ℕ, suc, ◌+◌, max, ◌≤◌, ◌<◌, ◌≡◌, refl, sym, ◌∙◌, ap, Bytes, bytes_eq, bytes_eq_refl,
  eq_of_bytes_eq, length, ◌==◌, List, [], ◌∷◌, Bool, true, false, some, arith, Bool-cases, inl, inr,
  subst,
}
use bsrvcore.Session.Heap.{top}
use bsrvcore.Session.Heap.Slots.{count, one, get_or}
use bsrvcore.Session.Heap.Order.{root_least}
use bsrvcore.Session.Heap.Laws.{IsHeapOf}
use bsrvcore.Session.Map.Table.{
  lookup, assign, lookup-assign, emplace_cases, emplace_keeps, assign_cases,
}
use bsrvcore.Session.Map.Cleaning.{
  expiry_of, cleans, scheduled, IsValid, Cleans, schedule_lem, thorough_clean-Cleans,
  clean_loop_done,
}
use bsrvcore.Session.Map.{
  Entry, KeyEntry, comes_after, blank, SessionMap, deadline, clean_loop, thorough_clean, schedule,
  touch_session, create_session, extend_session,
}

-- An element that is counted stands somewhere.
count_pos :
    (p : KeyEntry → Bool) (xs : List KeyEntry)
    → 0 < count p xs
    → (i : ℕ) × (i < length xs) × (p (get_or xs i blank) ≡ true)
count_pos p [] h = absurd (omega arith)
count_pos p (x ∷ xs) h = elim (Bool-cases (p x)) [
  | inl e ↦ (0, omega arith, e)
  | inr e ↦
      let h' : 0 < one false + count p xs = rw e at h in
      let (i, inside, found) = count_pos p xs (omega arith) in (suc i, omega arith, found)
]

scheduled-le :
    (id : Bytes) (expiry : ℕ) (pqueue : List KeyEntry)
    → IsHeapOf blank expiry_of pqueue
    → 0 < scheduled id expiry pqueue
    → (2 ≤ length pqueue) × ((top blank comes_after pqueue).expiry ≤ expiry)
scheduled-le id expiry [] v h = absurd (omega arith)
scheduled-le id expiry (x ∷ xs) v h =
    let (i, inside, found) = count_pos (cleans id expiry) xs h in
    let least = root_least blank expiry_of (x ∷ xs) (suc i) v.ordered (omega arith) (omega arith) in
    (omega arith, ground (arith, found, least))

-- After a thorough cleaning of a valid map no session is left whose lease has run out.
pub thorough_clean-live :
    (now : ℕ) (s : SessionMap) (id : Bytes) (e : Entry)
    → IsValid s
    → lookup id (thorough_clean now s).map ≡ some e
    → now < e.expiry
unfolding thorough_clean
thorough_clean-live now s id e v h =
    let left = thorough_clean-Cleans now s v in
    let done = clean_loop_done (length s.pqueue) now s v (omega arith) in
    let r = clean_loop (length s.pqueue) now s in
    let low = scheduled-le id e.expiry r.pqueue left.valid.heap (left.valid.covered id e h) in
    ground (arith, done, low)

cleans_self :
    (id : Bytes) (expiry : ℕ) → cleans id expiry (record { id = id; expiry = expiry }) ≡ true
cleans_self id expiry = rw (bytes_eq_refl id) (ground arith)

scheduled_self :
    (id : Bytes) (expiry : ℕ) (pqueue : List KeyEntry)
    → IsHeapOf blank expiry_of pqueue
    → 0 < scheduled id expiry (schedule id expiry pqueue)
scheduled_self id expiry pqueue v =
    let added =
      rw (cleans_self id expiry) at ((schedule_lem id expiry pqueue v).added (cleans id expiry)) in
    omega (arith, added)

scheduled_more :
    (id other : Bytes) (expiry at_time : ℕ) (pqueue : List KeyEntry)
    → IsHeapOf blank expiry_of pqueue
    → 0 < scheduled other at_time pqueue
    → 0 < scheduled other at_time (schedule id expiry pqueue)
scheduled_more id other expiry at_time pqueue v h =
    omega (arith, (schedule_lem id expiry pqueue v).added (cleans other at_time))

-- The session of `e` is still there, as the same context and with no shorter lease.
pub record Keeps (id : Bytes) (e : Entry) (s : SessionMap) : Type 0 where
  pub entry : Entry
  pub found : lookup id s.map ≡ some entry
  pub context : entry.context ≡ e.context
  pub lease : e.expiry ≤ entry.expiry

pub Keeps-same : (id : Bytes) (e : Entry) (s : SessionMap) → lookup id s.map ≡ some e → Keeps id e s
Keeps-same id e s h = record { entry = e; found = h; context = refl; lease = omega arith }

pub Keeps-Cleans :
    (now : ℕ) (s t : SessionMap) (id : Bytes) (e : Entry)
    → Cleans now s t
    → now < e.expiry
    → Keeps id e s
    → Keeps id e t
Keeps-Cleans now s t id e c live k = record {
  entry = k.entry;
  found = c.lost id k.entry k.found (omega (arith, k.lease));
  context = k.context;
  lease = k.lease;
}

pub create_session-IsValid :
    (id : Bytes) (new_expiry : ℕ) (s : SessionMap)
    → IsValid s
    → IsValid (create_session id new_expiry s)
unfolding create_session
create_session-IsValid id new_expiry s v = record {
  heap = (schedule_lem id new_expiry s.pqueue v.heap).heap;
  covered = λ other e h.
      elim (emplace_cases id other (record { context = s.next_context; expiry = new_expiry }) e
        s.map h) [
          | inl old ↦
              scheduled_more id other new_expiry e.expiry s.pqueue v.heap (v.covered other e old)
          | inr (same, made) ↦
              subst (λ k. 0 < scheduled k e.expiry (schedule id new_expiry s.pqueue)) same
                (subst (λ (x : Entry). 0 < scheduled id x.expiry (schedule id new_expiry s.pqueue))
                  made (scheduled_self id new_expiry s.pqueue v.heap))
        ];
}

pub create_session-Keeps :
    (id other : Bytes) (new_expiry : ℕ) (s : SessionMap) (e : Entry)
    → lookup other s.map ≡ some e
    → Keeps other e (create_session id new_expiry s)
unfolding create_session
create_session-Keeps id other new_expiry s e h =
    Keeps-same other e (create_session id new_expiry s)
      (emplace_keeps id other (record { context = s.next_context; expiry = new_expiry }) e s.map h)

-- The lease of a known session moves to `new_expiry`, which is no earlier: what `GetSession` and
-- `SetSessionTimeout` have in common.
abbrev renewed : Bytes → Entry → ℕ → SessionMap → SessionMap
renewed id e new_expiry s = record s {
  map = assign id (record e { expiry = new_expiry }) s.map;
  pqueue = schedule id new_expiry s.pqueue;
}

module _ (id : Bytes) (e : Entry) (new_expiry : ℕ) (s : SessionMap)
    (there : lookup id s.map ≡ some e) where
  renewed-IsValid : IsValid s → IsValid (renewed id e new_expiry s)
  renewed-IsValid v = record {
    heap = (schedule_lem id new_expiry s.pqueue v.heap).heap;
    covered = λ other x h.
        elim (assign_cases id other (record e { expiry = new_expiry }) x e s.map there h) [
          | inl old ↦
              scheduled_more id other new_expiry x.expiry s.pqueue v.heap (v.covered other x old)
          | inr (same, made) ↦
              subst (λ k. 0 < scheduled k x.expiry (schedule id new_expiry s.pqueue)) same
                (subst (λ (y : Entry). 0 < scheduled id y.expiry (schedule id new_expiry s.pqueue))
                  made (scheduled_self id new_expiry s.pqueue v.heap))
        ];
  }

  -- An assignment of the same expiry changes no lookup.
  assign_same-IsValid :
      new_expiry ≡ e.expiry
      → IsValid s
      → IsValid (record s { map = assign id (record e { expiry = new_expiry }) s.map })
  assign_same-IsValid same v = record {
    heap = v.heap;
    covered = λ other x h.
        elim (assign_cases id other (record e { expiry = new_expiry }) x e s.map there h) [
          | inl old ↦ v.covered other x old
          | inr (k, made) ↦
              subst (λ i. 0 < scheduled i x.expiry s.pqueue) k
                (subst (λ (y : Entry). 0 < scheduled id y.expiry s.pqueue) made
                  (subst (λ t. 0 < scheduled id t s.pqueue) (sym same) (v.covered id e there)))
        ];
  }

  assigned-Keeps :
      (pqueue : List KeyEntry) (other : Bytes) (x : Entry)
      → e.expiry ≤ new_expiry
      → lookup other s.map ≡ some x
      → Keeps other x
          (record s { map = assign id (record e { expiry = new_expiry }) s.map; pqueue = pqueue })
  assigned-Keeps pqueue other x le h =
      let put = lookup-assign id other (record e { expiry = new_expiry }) s.map e there in
      elim (Bool-cases (bytes_eq id other)) [
        | inr c ↦ Keeps-same other x _ (put ∙ rw c h)
        | inl c ↦
            let same : lookup id s.map ≡ some x =
              ap (λ k. lookup k s.map) (eq_of_bytes_eq id other c) ∙ h in
            let one_entry : e ≡ x = cc in
            record {
              entry = record e { expiry = new_expiry };
              found = put ∙ rw c refl;
              context = ap (λ (y : Entry). y.context) one_entry;
              lease = subst (λ (y : Entry). y.expiry ≤ new_expiry) one_entry le;
            }
      ]

pub touch_session-IsValid :
    (id : Bytes) (e : Entry) (now : ℕ) (s : SessionMap)
    → lookup id s.map ≡ some e
    → IsValid s
    → IsValid (touch_session id e now s)
unfolding touch_session
touch_session-IsValid id e now s there v =
    let new_expiry = max (deadline now s.default_timeout) e.expiry in
    elim (Bool-cases (new_expiry == e.expiry)) [
      | inl c ↦ rw c (assign_same-IsValid id e new_expiry s there (ground (arith, c)) v)
      | inr c ↦ rw c (renewed-IsValid id e new_expiry s there v)
    ]

pub touch_session-Keeps :
    (id : Bytes) (e : Entry) (now : ℕ) (s : SessionMap) (other : Bytes) (x : Entry)
    → lookup id s.map ≡ some e
    → lookup other s.map ≡ some x
    → Keeps other x (touch_session id e now s)
unfolding touch_session
touch_session-Keeps id e now s other x there h =
    assigned-Keeps id e (max (deadline now s.default_timeout) e.expiry) s there _ other x
      (omega arith) h

pub extend_session-IsValid :
    (id : Bytes) (e : Entry) (target : ℕ) (s : SessionMap)
    → lookup id s.map ≡ some e
    → IsValid s
    → IsValid (extend_session id e target s)
unfolding extend_session
extend_session-IsValid id e target s there v = elim (Bool-cases (max e.expiry target == e.expiry)) [
  | inl c ↦ rw c v
  | inr c ↦ rw c (renewed-IsValid id e (max e.expiry target) s there v)
]

pub extend_session-Keeps :
    (id : Bytes) (e : Entry) (target : ℕ) (s : SessionMap) (other : Bytes) (x : Entry)
    → lookup id s.map ≡ some e
    → lookup other s.map ≡ some x
    → Keeps other x (extend_session id e target s)
unfolding extend_session
extend_session-Keeps id e target s other x there h =
    elim (Bool-cases (max e.expiry target == e.expiry)) [
      | inl c ↦ rw c (Keeps-same other x s h)
      | inr c ↦ rw c (assigned-Keeps id e (max e.expiry target) s there _ other x (omega arith) h)
    ]
