-- ===== src/Session/Map/Steps.antt =====
-- One call of a session map: the invariant it keeps, and the leases.
use bsrvcore.Base.{
  ℕ, ◌<◌, ◌≡◌, ◌≢◌, refl, ◌∙◌, Bytes, bytes_eq_of_ne, ltb, length, ◌*◌, ◌&&◌, if◌then◌else◌, Bool,
  true, false, none, some, arith, Bool-cases, Option-cases, inl, inr, max,
}
use bsrvcore.Session.Heap.{get_size}
use bsrvcore.Session.Map.Table.{lookup, lookup-erase}
use bsrvcore.Session.Map.Cleaning.{IsValid, Cleans, short_clean-Cleans, thorough_clean-Cleans}
use bsrvcore.Session.Map.Leases.{
  Keeps, Keeps-same, Keeps-Cleans, create_session-IsValid, create_session-Keeps,
  touch_session-IsValid, touch_session-Keeps, extend_session-IsValid, extend_session-Keeps,
}
use bsrvcore.Session.Map.{
  Entry, SessionMap, deadline, min_session_timeout, short_clean, thorough_clean, create_session,
  get_session, remove_session, set_session_timeout, set_cleaner, set_background_cleaner,
  clean_in_background,
}

-- A step is good if it keeps the invariant, and each session whose lease runs past `later`.
pub record IsGood (later : ℕ) (keeps : Bytes → Type 0) (s t : SessionMap) : Type 0 where
  pub valid : IsValid s → IsValid t
  pub kept :
      IsValid s
      → (id : Bytes) (e : Entry) → keeps id
      → later < e.expiry
      → lookup id s.map ≡ some e
      → Keeps id e t

abbrev pub Every : Bytes → Type 0
Every id = Unit {0}

module _ (later : ℕ) (keeps : Bytes → Type 0) (s t : SessionMap) (g : IsGood later keeps s t) where
  then_short_clean : IsGood later keeps s (short_clean later t)
  then_short_clean = record {
    valid = λ v. (short_clean-Cleans later t (g.valid v)).valid;
    kept = λ v id e k live h.
        Keeps-Cleans later t (short_clean later t) id e (short_clean-Cleans later t (g.valid v))
          live (g.kept v id e k live h);
  }

module _ (now later : ℕ) (s : SessionMap) where
  pub IsGood-same :
      (keeps : Bytes → Type 0) (t : SessionMap)
      → t.map ≡ s.map
      → t.pqueue ≡ s.pqueue
      → IsGood later keeps s t
  IsGood-same keeps t m p = record {
    valid =
        λ v. record { heap = rw p v.heap; covered = λ id e h. rw p (v.covered id e (rw m at h)) };
    kept = λ v id e k live h. Keeps-same id e t (rw m h);
  }

  create_session-IsGood :
      (id : Bytes) (target : ℕ) → IsGood later Every s (create_session id target s)
  create_session-IsGood id target = record {
    valid = create_session-IsValid id target s;
    kept = λ v other e k live h. create_session-Keeps id other target s e h;
  }

  pub get_session-IsGood : (id : Bytes) → IsGood later Every s (get_session id now later s).0
  unfolding get_session
  get_session-IsGood id =
      let fresh = deadline now (max min_session_timeout s.default_timeout) in
      let created = then_short_clean later Every s _ (create_session-IsGood id fresh) in
      elim (Option-cases (lookup id s.map)) [
        | inl n ↦ rw (n, get_session) created
        | inr (e, there) ↦ elim (Bool-cases (ltb now e.expiry)) [
          | inl c ↦
              rw (there, c, get_session)
                (then_short_clean later Every s _ (record {
                  valid = touch_session-IsValid id e now s there;
                  kept = λ v other x k live h. touch_session-Keeps id e now s other x there h;
                }))
          | inr c ↦ rw (there, c, get_session) created
        ]
      ]

  pub set_session_timeout-IsGood :
      (id : Bytes) (timeout : ℕ) → IsGood later Every s (set_session_timeout id timeout now later s)
  unfolding set_session_timeout
  set_session_timeout-IsGood id timeout =
      let target = deadline now (max min_session_timeout timeout) in
      elim (Option-cases (lookup id s.map)) [
        | inl n ↦
            rw (n, set_session_timeout)
              (then_short_clean later Every s _ (create_session-IsGood id target))
        | inr (e, there) ↦
            rw (there, set_session_timeout)
              (then_short_clean later Every s _ (record {
                valid = extend_session-IsValid id e target s there;
                kept = λ v other x k live h. extend_session-Keeps id e target s other x there h;
              }))
      ]

  pub remove_session-IsGood :
      (id : Bytes) → IsGood later (λ other. id ≢ other) s (remove_session id later s).0
  unfolding remove_session
  remove_session-IsGood id =
      then_short_clean later (λ other. id ≢ other) s _
        (record {
          valid = λ v. record {
            heap = v.heap;
            covered =
                λ other e h. v.covered other e (ground (arith, lookup-erase id other s.map, h));
          };
          kept = λ v other e ne live h.
              Keeps-same other e _
                (lookup-erase id other s.map ∙ rw (bytes_eq_of_ne id other ne) h);
        })

IsGood-if :
    (later : ℕ) (keeps : Bytes → Type 0) (s t u : SessionMap) (b : Bool)
    → IsGood later keeps s t
    → IsGood later keeps s u
    → IsGood later keeps s (if b then t else u)
IsGood-if later keeps s t u true g h = g
IsGood-if later keeps s t u false g h = h

-- A change of the timer or of a setting after a good step.
then_same :
    (later : ℕ) (keeps : Bytes → Type 0) (s t u : SessionMap)
    → IsGood later keeps s t
    → u.map ≡ t.map
    → u.pqueue ≡ t.pqueue
    → IsGood later keeps s u
then_same later keeps s t u g m p = record {
  valid = λ v. (IsGood-same later later t keeps u m p).valid (g.valid v);
  kept = λ v id e k live h.
      let kept = g.kept v id e k live h in
      record {
        entry = kept.entry;
        found = rw m kept.found;
        context = kept.context;
        lease = kept.lease;
      };
}

module _ (later : ℕ) (s : SessionMap) where
  set_cleaner-IsGood :
      (t : SessionMap) → IsGood later Every s t → IsGood later Every s (set_cleaner t)
  unfolding set_cleaner
  set_cleaner-IsGood t g =
      IsGood-if later Every s _ t t.allow_cleaner (then_same later Every s t _ g refl refl) g

  pub set_background_cleaner-IsGood :
      (allow : Bool) → IsGood later Every s (set_background_cleaner allow s)
  unfolding set_background_cleaner
  set_background_cleaner-IsGood true =
      IsGood-if later Every s s _ s.allow_cleaner (IsGood-same later later s Every s refl refl) (
        set_cleaner-IsGood (record s { allow_cleaner = true })
          (IsGood-same later later s Every (record s { allow_cleaner = true }) refl refl))
  set_background_cleaner-IsGood false =
      IsGood-if later Every s (record s { allow_cleaner = false; timer = none }) s s.allow_cleaner
        (IsGood-same later later s Every (record s { allow_cleaner = false; timer = none }) refl
          refl)
        (IsGood-same later later s Every s refl refl)

  Cleans-IsGood :
      (w t : SessionMap)
      → IsGood later Every s w
      → (IsValid w → Cleans later w t)
      → IsGood later Every s t
  Cleans-IsGood w t g c = record {
    valid = λ v. (c (g.valid v)).valid;
    kept = λ v id e k live h.
        Keeps-Cleans later w t id e (c (g.valid v)) live (g.kept v id e k live h);
  }

  pub clean_in_background-IsGood :
      (running still : Bool) → IsGood later Every s (clean_in_background running still later s)
  unfolding clean_in_background
  clean_in_background-IsGood running still =
      let waited = record s { timer = none } in
      let small = ltb (get_size waited.pqueue) (length waited.map * 8) in
      let cleaned = if small then short_clean later waited else thorough_clean later waited in
      let start = IsGood-same later later s Every waited refl refl in
      let done : IsGood later Every s cleaned =
        IsGood-if later Every s (short_clean later waited) (thorough_clean later waited) small
          (Cleans-IsGood waited (short_clean later waited) start (short_clean-Cleans later waited))
          (Cleans-IsGood waited (thorough_clean later waited) start
            (thorough_clean-Cleans later waited)) in
      IsGood-if later Every s
        (if cleaned.allow_cleaner && still then set_cleaner cleaned else cleaned) waited running
        (IsGood-if later Every s (set_cleaner cleaned) cleaned (cleaned.allow_cleaner && still)
          (set_cleaner-IsGood cleaned done) done)
        start
