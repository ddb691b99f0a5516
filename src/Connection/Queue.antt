-- ===== src/Connection/Queue.antt =====
-- src/connection/include_exported/bsrvcore/internal/connection/server/detail/
-- stream_server_connection_message_queue.h: what is to be written to a connection. All of it but
-- `Wait` runs on the connection's strand, so a call is one step. A response header is known by its
-- identity; what the strand sees of the connection is an argument of a step.
pub mod Laws
pub mod Handlers
pub mod Delivery
use bsrvcore.Base.{
  ℕ, zero, suc, ◌+◌, ◌-◌, ◌^◌, max, min, Bytes, drop, length, leb, ◌==◌, ◌&&◌, ◌||◌, not,
  if◌then◌else◌, List, [], ◌∷◌, ◌++◌, Bool, true, false, Option, none, some,
}

-- `BodyMessage` and `HeaderMessage`, each with its write expiry.
pub data Message : Type 0 where
  body_message : Bytes → ℕ → Message
  header_message : ℕ → ℕ → Message

-- A write that has been started: `merged` with its `batch_count`, or a header.
pub data Write : Type 0 where
  write_body : Bytes → ℕ → Write
  write_header : ℕ → Write

-- `conn_wp_.lock()`, `IsServerRunning()` and `IsStreamAvailable()`.
pub record Connection : Type 0 where
  pub locked : Bool
  pub running : Bool
  pub available : Bool

pub record MessageQueue : Type 0 where
  pub queue : List Message
  pub is_writing : Bool
  pub queue_size : ℕ
  pub connection_dead : Bool
  -- The write whose handler is to come, and the calls of the condition variable and the connection.
  pub in_flight : Option Write
  pub notifications : ℕ
  pub timeout : Option ℕ
  pub closed : Bool

abbrev pub new_message_queue : MessageQueue
new_message_queue = record {
  queue = [];
  is_writing = false;
  queue_size = 0;
  connection_dead = false;
  in_flight = none;
  notifications = 0;
  timeout = none;
  closed = false;
}

-- `fetch_sub` of a `size_t`. (`fetch_add` counts elements in memory, and does not wrap.)
abbrev pub fetch_sub : ℕ → ℕ → ℕ
fetch_sub a b = if leb b a then a - b else a + 2 ^ 64 - b

-- `HandleConnectionUnavailable`, and `MarkConnectionDeadAndNotify`.
abbrev pub handle_connection_unavailable : MessageQueue → MessageQueue
handle_connection_unavailable m = record m {
  connection_dead = true;
  notifications = suc m.notifications;
  is_writing = false;
}

abbrev pub mark_connection_dead_and_notify : MessageQueue → MessageQueue
mark_connection_dead_and_notify m = record m {
  connection_dead = true;
  notifications = suc m.notifications;
}

abbrev pub usable : Connection → Bool
usable c = c.locked && c.running && c.available

-- The first loop of `StartWriteBody`: the bodies at the front, and their largest expiry.
abbrev pub batch_count : List Message → ℕ
batch_count [] = 0
batch_count (body_message msg expiry ∷ queue) = suc (batch_count queue)
batch_count (header_message h expiry ∷ queue) = 0

abbrev pub batch_expiry : ℕ → List Message → ℕ
batch_expiry write_expiry [] = write_expiry
batch_expiry write_expiry (body_message msg expiry ∷ queue) =
    batch_expiry (max write_expiry expiry) queue
batch_expiry write_expiry (header_message h expiry ∷ queue) = write_expiry

-- The second loop: the texts of the first `count` messages, all of them bodies.
abbrev pub merged : ℕ → List Message → Bytes
merged zero queue = []
merged (suc count) [] = []
merged (suc count) (body_message msg expiry ∷ queue) = msg ++ merged count queue
merged (suc count) (header_message h expiry ∷ queue) = []

unfoldable pub start_write_body : Connection → ℕ → MessageQueue → MessageQueue
start_write_body c write_expiry m =
    let count = batch_count m.queue in
    if not (usable c)
    then handle_connection_unavailable m
    else (if count == 0 then handle_connection_unavailable m else record m {
      in_flight = some (write_body (merged count m.queue) count);
      timeout = some (batch_expiry write_expiry m.queue);
    })

unfoldable pub start_write_header : Connection → ℕ → ℕ → MessageQueue → MessageQueue
start_write_header c h write_expiry m =
    if not (usable c)
    then handle_connection_unavailable m
    else record m { in_flight = some (write_header h); timeout = some write_expiry }

abbrev pub start_write : Connection → Message → MessageQueue → MessageQueue
start_write c (body_message msg expiry) m = start_write_body c expiry m
start_write c (header_message h expiry) m = start_write_header c h expiry m

-- `StartWriteIfNeeded`.
unfoldable pub start_write_if_needed : Connection → MessageQueue → MessageQueue
start_write_if_needed c m = elim m.queue [
  | [] ↦ m
  | task ∷ later ↦ if m.is_writing then m else start_write c task (record m { is_writing = true })
]

-- `EnqueueBodyOnStrand` and `EnqueueHeaderOnStrand`.
unfoldable pub enqueue_on_strand : Connection → Message → MessageQueue → MessageQueue
enqueue_on_strand c message m =
    start_write_if_needed c
      (record m { queue = m.queue ++ message ∷ []; queue_size = m.queue_size + 1 })

-- `PopFrontNAndNotifyIfEmpty`; `PopFrontAndNotifyIfEmpty` is called with a queue that is not empty.
unfoldable pub pop_front_n_and_notify_if_empty : ℕ → MessageQueue → MessageQueue
pop_front_n_and_notify_if_empty count m =
    let actual = min count (length m.queue) in
    if count == 0 then m else record m {
      queue = drop actual m.queue;
      queue_size = fetch_sub m.queue_size actual;
      notifications = if m.queue_size == actual then suc m.notifications else m.notifications;
    }

abbrev pub pop_front_and_notify_if_empty : MessageQueue → MessageQueue
pop_front_and_notify_if_empty m = record m {
  queue = drop 1 m.queue;
  queue_size = fetch_sub m.queue_size 1;
  notifications = if m.queue_size == 1 then suc m.notifications else m.notifications;
}

-- `HandleWriteError`.
abbrev pub handle_write_error : Connection → MessageQueue → MessageQueue
handle_write_error c m = record m {
  closed = m.closed || c.locked;
  connection_dead = true;
  notifications = suc m.notifications;
  is_writing = false;
}

abbrev pub cancel_timeout : Connection → MessageQueue → MessageQueue
cancel_timeout c m = record m { timeout = if c.locked then none else m.timeout }

-- `HandleBodyWriteComplete` and `HandleHeaderWriteComplete`; the call of `StartWriteIfNeeded`
-- tests for an empty queue itself.
unfoldable pub handle_body_write_complete : Connection → Bool → ℕ → MessageQueue → MessageQueue
handle_body_write_complete c ec count m =
    let waited = cancel_timeout c m in
    if ec
    then handle_write_error c waited
    else start_write_if_needed c
        (record (pop_front_n_and_notify_if_empty count waited) { is_writing = false })

unfoldable pub handle_header_write_complete : Connection → Bool → MessageQueue → MessageQueue
handle_header_write_complete c ec m =
    let waited = cancel_timeout c m in
    if ec
    then handle_write_error c waited
    else start_write_if_needed c
        (record (pop_front_and_notify_if_empty waited) { is_writing = false })

-- The handler of the write in flight runs.
unfoldable pub complete_write : Connection → Bool → MessageQueue → MessageQueue
complete_write c ec m =
    let landed = record m { in_flight = none } in
    elim m.in_flight [
      | none ↦ m
      | some w ↦ elim w [
        | write_body text count ↦ handle_body_write_complete c ec count landed
        | write_header h ↦ handle_header_write_complete c ec landed
      ]
    ]

-- The test of `Wait`.
abbrev pub wait_is_over : MessageQueue → Bool
wait_is_over m = m.connection_dead || m.queue_size == 0

-- What reaches the strand: a message, the end of the write in flight, with its error, and the
-- branch of `AddBody` and `AddHeader` for a connection that is gone.
pub data Event : Type 0 where
  enqueues : Message → Event
  completes : (ec : Bool) → Event
  finds_connection_gone : Event

unfoldable pub step : Connection → Event → MessageQueue → MessageQueue
step c (enqueues message) m = enqueue_on_strand c message m
step c (completes ec) m = complete_write c ec m
step c finds_connection_gone m = mark_connection_dead_and_notify m

abbrev pub run : List (Connection × Event) → MessageQueue → MessageQueue
run [] m = m
run ((c, x) ∷ xs) m = run xs (step c x m)
