-- ===== src/Session/Map/Cleaning.antt =====
-- The invariant of a session map, and what the cleaning loops do to it.
use bsrvcore.Base.{
  ℕ, zero, suc, ◌+◌, ◌*◌, ◌≤◌, ◌<◌, ◌≡◌, refl, ◌∙◌, Bytes, bytes_eq, bytes_eq_iff, bytes_eq_refl,
  length, ltb, ◌==◌, ◌&&◌, if◌then◌else◌, List, Bool, true, false, none, some, arith, Bool-cases,
  inl, inr,
}
use bsrvcore.Session.Heap.{pop, get_size}
use bsrvcore.Session.Heap.Slots.{count}
use bsrvcore.Session.Heap.Laws.{items, IsHeapOf, Popped, Pushed, pop_lem, push_lem}
use bsrvcore.Session.Map.Table.{lookup, lookup-erase}
use bsrvcore.Session.Map.{
  Entry, KeyEntry, comes_after, blank, SessionMap, is_due, clean_top, has_expired_top, clean_loop,
  short_clean, thorough_clean, schedule,
}

abbrev pub expiry_of : KeyEntry → ℕ
expiry_of k = k.expiry

-- The heap element that would clean up the session `id` at `expiry`.
abbrev pub cleans : Bytes → ℕ → KeyEntry → Bool
cleans id expiry k = bytes_eq k.id id && k.expiry == expiry

-- How often that element is in the heap.
abbrev pub scheduled : Bytes → ℕ → List KeyEntry → ℕ
scheduled id expiry pqueue = count (cleans id expiry) (items pqueue)

-- The heap is one, and every session is scheduled at its present expiry.
pub record IsValid (s : SessionMap) : Type 0 where
  pub heap : IsHeapOf blank expiry_of s.pqueue
  pub covered :
      (id : Bytes) (e : Entry) → lookup id s.map ≡ some e → 0 < scheduled id e.expiry s.pqueue

pop_session :
    (pqueue : List KeyEntry)
    → IsHeapOf blank expiry_of pqueue
    → 2 ≤ length pqueue
    → Popped blank expiry_of pqueue (pop blank comes_after pqueue)
pop_session pqueue v h = pop_lem blank expiry_of comes_after (λ x y. refl) pqueue v h

pub schedule_lem :
    (id : Bytes) (expiry : ℕ) (pqueue : List KeyEntry)
    → IsHeapOf blank expiry_of pqueue
    → Pushed blank expiry_of pqueue
        (record { id = id; expiry = expiry })
        (schedule id expiry pqueue)
unfolding schedule
schedule_lem id expiry pqueue v =
    push_lem blank expiry_of comes_after (λ x y. refl) pqueue (record { id = id; expiry = expiry })
      v

-- What any number of rounds at the time `now` leaves.
pub record Cleans (now : ℕ) (s s' : SessionMap) : Type 0 where
  pub valid : IsValid s'
  -- A session that is left is one that was there; one that is gone had expired.
  pub kept : (id : Bytes) (e : Entry) → lookup id s'.map ≡ some e → lookup id s.map ≡ some e
  pub lost :
      (id : Bytes) (e : Entry)
      → lookup id s.map ≡ some e
      → now < e.expiry
      → lookup id s'.map ≡ some e
  pub timeout : s'.default_timeout ≡ s.default_timeout
  pub fresh : s'.next_context ≡ s.next_context
  pub allowed : s'.allow_cleaner ≡ s.allow_cleaner
  pub timed : s'.timer ≡ s.timer

lookup-clean_top :
    (s : SessionMap) (id : Bytes)
    → let k = (pop blank comes_after s.pqueue).0 in
      lookup id (clean_top s).map
      ≡ (if is_due (lookup k.id s.map) k.expiry && bytes_eq k.id id then none else lookup id s.map)
unfolding clean_top
lookup-clean_top s id =
    let k = (pop blank comes_after s.pqueue).0 in ground (arith, lookup-erase k.id id s.map)

-- The element that would clean a session is due.
is_due-cleans :
    (k : KeyEntry) (id : Bytes) (e : Entry) (m : List (Bytes × Entry))
    → lookup id m ≡ some e
    → cleans id e.expiry k ≡ true
    → (is_due (lookup k.id m) k.expiry && bytes_eq k.id id) ≡ true
unfolding is_due
is_due-cleans k id e m h c =
    let same : k.id ≡ id = ground (arith, bytes_eq_iff k.id id) in
    rw (same, h, bytes_eq_refl id) (ground arith)

expiry_of_is_due :
    (k : KeyEntry) (id : Bytes) (e : Entry) (m : List (Bytes × Entry))
    → lookup id m ≡ some e
    → (is_due (lookup k.id m) k.expiry && bytes_eq k.id id) ≡ true
    → e.expiry ≡ k.expiry
unfolding is_due
expiry_of_is_due k id e m h c =
    let same : k.id ≡ id = ground (arith, bytes_eq_iff k.id id) in
    let c' : (is_due (some e) k.expiry && bytes_eq id id) ≡ true = rw (same, h) at c in ground arith

module _ (now : ℕ) (s : SessionMap) (v : IsValid s) (x : has_expired_top now s ≡ true) where
  filled : 2 ≤ length s.pqueue
  filled = ground arith

  abbrev key_entry : KeyEntry
  key_entry = (pop blank comes_after s.pqueue).0

  key_entry_expired : key_entry.expiry ≤ now
  key_entry_expired =
      ground (arith, (pop_session s.pqueue v.heap filled).least 1 (omega arith) filled)

  clean_top-Cleans : Cleans now s (clean_top s)
  unfolding clean_top
  clean_top-Cleans =
      let out = pop_session s.pqueue v.heap filled in
      let at = lookup-clean_top s in
      record {
        valid = record {
          heap = out.heap;
          covered = λ id e h.
              let old : lookup id s.map ≡ some e = ground (arith, at id, h) in
              elim (Bool-cases (cleans id e.expiry key_entry)) [
                | inl c ↦
                    absurd (ground (arith, at id, h, is_due-cleans key_entry id e s.map old c))
                | inr c ↦
                    let removed = rw c at (out.removed (cleans id e.expiry)) in
                    omega (arith, removed, v.covered id e old)
              ];
        };
        kept = λ id e h. ground (arith, at id, h);
        lost = λ id e h live.
            elim (Bool-cases
              (is_due (lookup key_entry.id s.map) key_entry.expiry && bytes_eq key_entry.id id)) [
                | inl c ↦
                    absurd
                      (omega (arith, expiry_of_is_due key_entry id e s.map h c, key_entry_expired))
                | inr c ↦ at id ∙ rw c h
              ];
        timeout = refl;
        fresh = refl;
        allowed = refl;
        timed = refl;
      }

Cleans-refl : (now : ℕ) (s : SessionMap) → IsValid s → Cleans now s s
Cleans-refl now s v = record {
  valid = v;
  kept = λ id e h. h;
  lost = λ id e h live. h;
  timeout = refl;
  fresh = refl;
  allowed = refl;
  timed = refl;
}

Cleans-trans : {now : ℕ} {s t u : SessionMap} → Cleans now s t → Cleans now t u → Cleans now s u
Cleans-trans a b = record {
  valid = b.valid;
  kept = λ id e h. a.kept id e (b.kept id e h);
  lost = λ id e h live. b.lost id e (a.lost id e h live) live;
  timeout = b.timeout ∙ a.timeout;
  fresh = b.fresh ∙ a.fresh;
  allowed = b.allowed ∙ a.allowed;
  timed = b.timed ∙ a.timed;
}

clean_loop-Cleans :
    (rounds now : ℕ) (s : SessionMap) → IsValid s → Cleans now s (clean_loop rounds now s)
unfolding clean_loop
clean_loop-Cleans zero now s v = Cleans-refl now s v
clean_loop-Cleans (suc rounds) now s v = elim (Bool-cases (has_expired_top now s)) [
  | inl x ↦
      let first = clean_top-Cleans now s v x in
      rw x (Cleans-trans first (clean_loop-Cleans rounds now (clean_top s) first.valid))
  | inr x ↦ rw x (Cleans-refl now s v)
]

-- Cleaning in either form keeps the map valid, loses no session whose lease runs past `now`, and
-- makes none up.
pub short_clean-Cleans : (now : ℕ) (s : SessionMap) → IsValid s → Cleans now s (short_clean now s)
unfolding short_clean
short_clean-Cleans now s v = elim (Bool-cases (ltb (length s.map * 2) (get_size s.pqueue))) [
  | inl e ↦ rw e (clean_loop-Cleans 8 now s v)
  | inr e ↦ rw e (Cleans-refl now s v)
]

pub thorough_clean-Cleans :
    (now : ℕ) (s : SessionMap) → IsValid s → Cleans now s (thorough_clean now s)
unfolding thorough_clean
thorough_clean-Cleans now s v = clean_loop-Cleans (length s.pqueue) now s v

length-clean_top :
    (now : ℕ) (s : SessionMap)
    → IsValid s
    → has_expired_top now s ≡ true
    → length s.pqueue ≡ length (clean_top s).pqueue + 1
unfolding clean_top
length-clean_top now s v x = (pop_session s.pqueue v.heap (filled now s v x)).sized

-- With a round for each element of the heap the loop ends by its own test.
pub clean_loop_done :
    (rounds now : ℕ) (s : SessionMap)
    → IsValid s
    → length s.pqueue ≤ rounds
    → has_expired_top now (clean_loop rounds now s) ≡ false
unfolding clean_loop
clean_loop_done zero now s v h = absurd (omega (arith, v.heap.based))
clean_loop_done (suc rounds) now s v h = elim (Bool-cases (has_expired_top now s)) [
  | inl x ↦ rw x (
      clean_loop_done rounds now (clean_top s) (clean_top-Cleans now s v x).valid
        (omega (arith, length-clean_top now s v x)))
  | inr x ↦ rw x x
]
