-- ===== src/Connection/Task/Phases.antt =====
-- The phases, and the deleters that lead from one to the next. A task may outlive its hooks: the
-- last owner's release is where its deleter runs.
pub mod Onion
pub mod Complete
use bsrvcore.Base.{
  ℕ, zero, suc, ◌-◌, length, get_elem?, is_empty, ltb, ◌&&◌, ◌||◌, not, if◌then◌else◌, List, [],
  ◌∷◌, ◌++◌, Bool, true, false, Option, none, some,
}
use bsrvcore.Connection.Task.{
  Mode, Shared, Call, pre_service, service, post_service, Readings, at_pre, at_service, at_post,
  Http, Aspect, Handler, TaskState,
}
use bsrvcore.Connection.Task.Finalize.{
  Step, is_task_environment_available, try_close_connection, finalize_post_phase,
}

-- `HttpPreServerTask::DoPreService`, from the index `curr_idx` on.
unfoldable pub pre_loop : ℕ → List Aspect → TaskState → TaskState × List Call
pre_loop curr_idx [] st = (st, [])
pre_loop curr_idx (a ∷ aspects) st =
    let (s, fails) = a.on_pre st.shared in
    let now : TaskState = record { shared = s; marked = st.marked || fails; unwind = curr_idx } in
    let rest = pre_loop (suc curr_idx) aspects now in
    if st.marked
    then (st, [])
    else (if st.marked || fails
        then (now, pre_service curr_idx ∷ [])
        else (rest.0, pre_service curr_idx ∷ rest.1))

-- `HttpPreServerTask::Start`.
unfoldable pub start_pre : List Aspect → TaskState → TaskState × List Call
unfolding pre_loop
start_pre aspects st = if st.shared.conn then pre_loop 0 aspects st else (st, [])

-- `HttpPostServerTask::DoPostService`; an index out of range ends it.
unfoldable pub post_loop : List Aspect → ℕ → Shared → Step
post_loop aspects zero s = elim (get_elem? aspects 0) [
  | none ↦ (s, [])
  | some a ↦ (a.on_post s, post_service 0 ∷ [])
]
post_loop aspects (suc curr_idx) s = elim (get_elem? aspects (suc curr_idx)) [
  | none ↦ (s, [])
  | some a ↦
      let (s', calls) = post_loop aspects curr_idx (a.on_post s) in
      (s', post_service (suc curr_idx) ∷ calls)
]

-- `HttpPostServerTask::Start`.
unfoldable pub start_post : List Aspect → TaskState → Step
unfolding post_loop
start_post aspects st =
    let curr_idx = if st.marked then st.unwind else length aspects - 1 in
    if is_empty aspects
    then (st.shared, [])
    else (if not (ltb curr_idx (length aspects))
        then (st.shared, [])
        else (if st.shared.conn then post_loop aspects curr_idx st.shared else (st.shared, [])))

module _ (http : Http) (r : Readings) (aspects : List Aspect) where
  -- `HttpPostTaskDeleter`.
  unfoldable pub release_post : Shared → Step
  unfolding finalize_post_phase try_close_connection
  release_post s =
      if not (is_task_environment_available r at_post s)
      then try_close_connection r s
      else finalize_post_phase http r s.mode s

  -- The post task from its start to its end.
  unfoldable pub run_post : TaskState → Step
  unfolding start_post release_post
  run_post st =
      let (s, calls) = start_post aspects st in
      let (s', more) = release_post s in (s', calls ++ more)

  -- `HttpServerTaskDeleter`.
  unfoldable pub release_service : TaskState → Step
  unfolding run_post try_close_connection
  release_service st =
      if not (is_task_environment_available r at_service st.shared)
      then try_close_connection r st.shared
      else run_post st

  -- `HttpServerTask::Start` and `DoService`, and then the deleter.
  unfoldable pub run_service : (Shared → Shared) → TaskState → Step
  unfolding release_service
  run_service h st =
      let (s, more) = release_service (record st { shared = h st.shared }) in
      let skip = release_service st in if st.shared.conn then (s, service ∷ more) else skip

  -- `HttpPreTaskDeleter`.
  unfoldable pub release_pre : Handler → TaskState → Step
  unfolding run_post run_service try_close_connection
  release_pre handler st =
      if not (is_task_environment_available r at_pre st.shared)
      then try_close_connection r st.shared
      else (if st.marked
          then run_post st
          else elim handler [ none ↦ try_close_connection r st.shared | some h ↦ run_service h st ])

  -- A task from `HttpPreServerTask::Start` on. `late` is whether an aspect that has kept the pre
  -- task marks a failure after the loop.
  unfoldable pub run_task : Handler → Bool → Shared → Step
  unfolding start_pre release_pre
  run_task handler late s =
      let (st, calls) = start_pre aspects (record { shared = s; marked = false; unwind = 0 }) in
      let (s', more) = release_pre handler (record st { marked = st.marked || late }) in
      (s', calls ++ more)
