-- ===== src/Connection/Task/Phases/Complete.antt =====
-- With the server up and the connection kept by all, nothing of a task is left out.
use bsrvcore.Base.{ℕ, ◌≤◌, ◌≡◌, not, List, [], ◌∷◌, ◌++◌, Bool, true, false}
use bsrvcore.Connection.Task.{Shared, Call, service, Aspect, TaskState}
use bsrvcore.Connection.Task.Finalize.{Step}
use bsrvcore.Connection.Task.Finalize.Laws.{is_action}
use bsrvcore.Connection.Task.Finalize.Acts.{Acts}
use bsrvcore.Connection.Task.Phases.{start_pre}
use bsrvcore.Connection.Task.Phases.Onion.{entered, left, when}

-- The hooks leave the connection set.
abbrev pub Keeps : (Shared → Shared) → Type 0
Keeps f = (s : Shared) → s.conn ≡ true → (f s).conn ≡ true

pub record KeepsBoth (a : Aspect) : Type 0 where
  pub pre_keeps : Keeps (λ s. (a.on_pre s).0)
  pub post_keeps : Keeps a.on_post

-- The calls of a step: some, and then the one that gives the connection away.
abbrev pub EndsWith : List Call → Step → Type 0
EndsWith calls x = (a : Call) × (is_action a ≡ true) × (x.1 ≡ calls ++ a ∷ [])

-- The calls of a task, where `failed` is whether a failure was marked: all aspects are entered, or
-- the first ones up to the failure; the handler is called unless a failure was marked; exactly the
-- entered aspects are left, in the reverse order; and one call gives the connection away.
pub record IsComplete (n : ℕ) (failed : Bool) (x : Step) : Type 0 where
  pub count : ℕ
  pub bounded : count ≤ n
  pub whole : failed ≡ false → count ≡ n
  pub action : Call
  pub is_last : is_action action ≡ true
  pub shape :
      x.1 ≡ entered 0 count ++ ((when (not failed) (service ∷ []) ++ left count) ++ action ∷ [])

-- The pre phase of a task.
abbrev pub pre_phase : List Aspect → Shared → TaskState × List Call
pre_phase aspects s = start_pre aspects (record { shared = s; marked = false; unwind = 0 })
