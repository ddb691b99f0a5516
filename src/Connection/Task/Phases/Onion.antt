-- ===== src/Connection/Task/Phases/Onion.antt =====
-- The order of the calls of a task: the aspects are left in the reverse order of their entering.
use bsrvcore.Base.{
  ℕ, zero, suc, ◌+◌, ◌-◌, ◌≤◌, ◌<◌, ◌≡◌, ◌⊎◌, inl, inr, refl, sym, ◌∙◌, ap, length, get_elem?-lt,
  ltb, ◌||◌, not, if◌then◌else◌, if-elim, List, [], ◌∷◌, ◌++◌, Bool, true, false, arith,
}
use bsrvcore.Connection.Task.{
  Shared, Call, pre_service, service, post_service, Readings, at_post, Http, Aspect, TaskState,
}
use bsrvcore.Connection.Task.Finalize.{Step, is_task_environment_available}
use bsrvcore.Connection.Task.Finalize.Laws.{
  IsOneAction, IsFinal, try_close-IsFinal, finalize_post_phase-IsFinal,
}
use bsrvcore.Connection.Task.Phases.{pre_loop, post_loop, start_post, release_post}

-- `PreService` of `n` aspects from the index `i` on, and `PostService` of the first `n`, the last first.
abbrev pub entered : ℕ → ℕ → List Call
entered i zero = []
entered i (suc n) = pre_service i ∷ entered (suc i) n

abbrev pub left : ℕ → List Call
left zero = []
left (suc n) = post_service n ∷ left n

abbrev pub when : Bool → List Call → List Call
when true calls = calls
when false calls = []

-- What a run of the pre loop leaves: `count` aspects were entered.
pub record PreRun (i n u : ℕ) (x : TaskState × List Call) : Type 0 where
  pub count : ℕ
  pub bounded : count ≤ n
  pub calls : x.1 ≡ entered i count
  pub whole : x.0.marked ≡ false → count ≡ n
  pub last : (0 < n) ⊎ (suc u ≡ i) → suc x.0.unwind ≡ i + count

pub pre_loop-PreRun :
    (i : ℕ) (aspects : List Aspect) (st : TaskState)
    → st.marked ≡ false
    → PreRun i (length aspects) st.unwind (pre_loop i aspects st)
unfolding pre_loop
pre_loop-PreRun i [] st h = record {
  count = 0;
  bounded = omega arith;
  calls = refl;
  whole = λ _. refl;
  last = λ l. elim l [ inl z ↦ absurd (omega (arith, z)) | inr e ↦ omega (arith, e) ];
}
pre_loop-PreRun i (a ∷ aspects) st h =
    let s = (a.on_pre st.shared).0 in
    let fails = (a.on_pre st.shared).1 in
    let now : TaskState = record { shared = s; marked = st.marked || fails; unwind = i } in
    if-elim (PreRun i (suc (length aspects)) st.unwind) st.marked (λ e. absurd (ground arith))
      (λ _.
        if-elim (PreRun i (suc (length aspects)) st.unwind) (st.marked || fails)
          (λ e. record {
            count = 1;
            bounded = omega arith;
            calls = refl;
            whole = λ f. absurd (ground arith);
            last = λ _. omega arith;
          })
          (λ e. more aspects now (pre_loop-PreRun (suc i) aspects now e)))
  where
    more :
        (tail : List Aspect) (now : TaskState)
        → PreRun (suc i) (length tail) i (pre_loop (suc i) tail now)
        → PreRun i
            (suc (length tail))
            st.unwind
            ((pre_loop (suc i) tail now).0, pre_service i ∷ (pre_loop (suc i) tail now).1)
    more tail now p = record {
      count = suc p.count;
      bounded = omega (arith, p.bounded);
      calls = ap (◌∷◌ (pre_service i)) p.calls;
      whole = λ f. ap suc (p.whole f);
      last = λ _. omega (arith, p.last (inr refl));
    }

post_loop-left :
    (aspects : List Aspect) (i : ℕ) (s : Shared)
    → i < length aspects
    → (post_loop aspects i s).1 ≡ left (suc i)
unfolding post_loop
post_loop-left aspects zero s h = let (a, e) = get_elem?-lt aspects 0 h in rw (e, post_loop) refl
post_loop-left aspects (suc i) s h =
    let (a, e) = get_elem?-lt aspects (suc i) h in
    rw (e, post_loop)
      (ap (◌∷◌ (post_service (suc i))) (post_loop-left aspects i (a.on_post s) (omega arith)))

-- The state after the pre phase, in which `k` of `n` aspects were entered.
pub record HasEntered (n k : ℕ) (st : TaskState) : Type 0 where
  pub bounded : k ≤ n
  pub whole : st.marked ≡ false → k ≡ n
  pub last : 0 < n → suc st.unwind ≡ k

pub start_post-left :
    (aspects : List Aspect) (k : ℕ) (st : TaskState)
    → HasEntered (length aspects) k st
    → (start_post aspects st).1 ≡ when st.shared.conn (left k)
unfolding start_post
start_post-left [] k st h =
    let none_entered : k ≡ 0 = omega (arith, h.bounded) in
    sym (ap (λ j. when st.shared.conn (left j)) none_entered ∙ nothing st.shared.conn)
  where
    nothing : (b : Bool) → when b [] ≡ []
    nothing true = refl
    nothing false = refl
start_post-left (a ∷ aspects) k st h =
    let n = length (a ∷ aspects) in
    let curr = if st.marked then st.unwind else n - 1 in
    let at : suc curr ≡ k = start st.marked refl in
    let inside : ltb curr n ≡ true = ground (arith, at, h.bounded) in
    rw inside (
      if-elim (λ (x : Step). x.1 ≡ when st.shared.conn (left k)) st.shared.conn
        (λ e.
          post_loop-left (a ∷ aspects) curr st.shared (omega (arith, at, h.bounded))
          ∙ ap left at
          ∙ sym (ap (λ b. when b (left k)) e))
        (λ e. sym (ap (λ b. when b (left k)) e)))
  where
    start : (b : Bool) → st.marked ≡ b → suc (if b then st.unwind else length (a ∷ aspects) - 1) ≡ k
    start true e = h.last (omega arith)
    start false e = omega (arith, h.whole e)

-- The post phase: the entered aspects are left, or none is, and then comes the end.
record IsEnd (k : ℕ) (x : Step) : Type 0 where
  unwound : Bool
  ends : List Call
  shape : x.1 ≡ when unwound (left k) ++ ends
  once : IsOneAction ends
  freed : x.0.conn ≡ false

module _ (http : Http) (r : Readings) (aspects : List Aspect) (k : ℕ) where
  pub release_post-IsFinal : (s : Shared) → IsFinal (release_post http r aspects s)
  unfolding release_post
  release_post-IsFinal s =
      if-elim IsFinal (not (is_task_environment_available r at_post s)) (λ _. try_close-IsFinal r s)
        (λ _. finalize_post_phase-IsFinal http r s.mode s)

-- The calls of a task: the first `count` of the `n` aspects are entered, in their order; the
-- handler is called, if at all, once all are entered and no failure was marked; the entered
-- aspects are left in the reverse order, or, where the connection or the server is gone, none is;
-- and at last the connection is given away, by one call at most.
pub record IsOnion (n : ℕ) (x : Step) : Type 0 where
  pub count : ℕ
  pub bounded : count ≤ n
  pub served : Bool
  pub complete : served ≡ true → count ≡ n
  pub unwound : Bool
  pub ends : List Call
  pub shape :
      x.1 ≡ entered 0 count ++ (when served (service ∷ []) ++ (when unwound (left count) ++ ends))
  pub once : IsOneAction ends
  pub freed : x.0.conn ≡ false

module _ (http : Http) (r : Readings) (aspects : List Aspect) where
  Onion : ℕ → Step → Type 0
  Onion k x = IsOnion (length aspects) (x.0, entered 0 k ++ x.1)
