-- ===== src/Connection/Task.antt =====
-- The life cycle of a server task: src/connection/include/internal/server/http_server_task_detail.h
-- and src/connection/server/http_server_task_lifecycle.cc. Pre aspects, service and post aspects
-- run one after another on the connection's executor; a task's deleter starts the next phase.
pub mod Finalize
pub mod Phases
pub mod Tests
use bsrvcore.Base.{ℕ, Bytes, List, Bool, Option}
use bsrvcore.Base.Integers.{ℤ}
use bsrvcore.Connection.Cookies.Server.{ServerSetCookie}

-- `HttpTaskConnectionLifecycleMode`.
pub data Mode : Type 0 where
  automatic manual web_socket : Mode

pub data WebSocketUpgradeState : Type 0 where
  no_upgrade requested header_prepared task_started : WebSocketUpgradeState

abbrev pub Fields : Type 0
Fields = List (Bytes × Bytes)

-- What aspects and handlers can change of `HttpTaskSharedState`; `conn` is whether the connection
-- pointer is set, `upgrade_handler` whether the WebSocket handler is.
pub record Shared : Type 0 where
  pub conn : Bool
  pub mode : Mode
  pub upgrade_state : WebSocketUpgradeState
  pub upgrade_handler : Bool
  pub set_cookies : List ServerSetCookie
  pub fields : Fields
  pub body : Bytes
  pub keep_alive : Bool

-- The calls of aspects, by their index, of the handler, and of the connection.
pub data Call : Type 0 where
  pre_service : ℕ → Call
  service : Call
  post_service : ℕ → Call
  do_write_response : Fields → Bytes → Bool → Call
  do_close : Call
  do_cycle : Call
  start_websocket : Fields → Call

-- Where the code asks whether the server runs and the stream is available.
pub data Check : Type 0 where
  at_pre at_service at_post at_submit at_close at_manual : Check

-- The answers, and whether a WebSocket task can be created.
pub record Readings : Type 0 where
  pub running : Check → Bool
  pub stream : Check → Bool
  pub creates : Bool

-- What the code uses of the fields of a message and of `std::to_string`.
pub record Http : Type 0 where
  pub to_string : ℤ → Bytes
  pub insert : Bytes → Bytes → Fields → Fields
  pub set : Bytes → Bytes → Fields → Fields

-- `PreService` of an aspect, which may also call `MarkAspectFailure`, and `PostService`; what an
-- exception leaves behind is their result too.
pub record Aspect : Type 0 where
  pub on_pre : Shared → Shared × Bool
  pub on_post : Shared → Shared

abbrev pub Handler : Type 0
Handler = Option (Shared → Shared)

-- The state that only the life cycle changes: `aspect_failure_marked` and
-- `aspect_unwind_start_index`.
pub record TaskState : Type 0 where
  pub shared : Shared
  pub marked : Bool
  pub unwind : ℕ
