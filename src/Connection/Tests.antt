-- ===== src/Connection/Tests.antt =====
-- The event parser and the message queue at concrete streams and histories.
use bsrvcore.Base.{
  ℕ, ◌+◌, ◌-◌, ◌*◌, Bytes, codes, bytes_eq, find, leb, ◌&&◌, if◌then◌else◌, List, [], ◌∷◌, ◌++◌,
  Option, none, some, true, false, ◌≡◌, refl, inl,
}
use bsrvcore.Connection.Sse.{
  SseEvent, empty_event, new_parser, trim_leading_single_space, field_value, emit_event_if_ready,
  apply_sse_field, consume_line, feed_loop, feed,
}
use bsrvcore.Connection.Sse.Laws.{feed_all, concat, feed_all-concat}
use bsrvcore.Connection.Queue.{
  body_message, header_message, Connection, new_message_queue, start_write_body, start_write_header,
  start_write_if_needed, enqueue_on_strand, pop_front_n_and_notify_if_empty,
  handle_body_write_complete, handle_header_write_complete, complete_write, wait_is_over, Event,
  enqueues, completes, step, run,
}
use bsrvcore.Connection.Queue.Laws.{contents, IsConsistent}
use bsrvcore.Connection.Queue.Delivery.{
  all_added, all_delivered, run-IsConsistent, run-delivers, wait_drained,
}

-- A reading of decimal digits, the last one first in `s`.
abbrev digits : Option ℕ → Bytes → Option ℕ
digits o [] = o
digits none (c ∷ s) = if leb b'0' c && leb c b'9' then digits (some (c - b'0')) s else none
digits (some n) (c ∷ s) =
    if leb b'0' c && leb c b'9' then digits (some (n * 10 + (c - b'0'))) s else none

abbrev from_chars : Bytes → Option ℕ
from_chars = digits none

abbrev stream : Bytes
stream =
    codes "id: 7" ++ b'\r' ∷ b'\n' ∷ codes "data: a" ++ b'\n' ∷ codes "data:b" ++ b'\n' ∷ b'\n' ∷ []

abbrev event_7 : SseEvent
event_7 = record empty_event { id = codes "7"; data_text = b'a' ∷ b'\n' ∷ b'b' ∷ [] }

sse_tests :
    (feed from_chars stream new_parser ≡ (new_parser, event_7 ∷ []))
    × (from_chars (codes "250") ≡ some 250)
unfolding bytes_eq find trim_leading_single_space field_value emit_event_if_ready apply_sse_field
    consume_line feed_loop feed
sse_tests = (refl, refl)

feed_all-concat_example :
    feed_all from_chars (codes "id: 7" ∷ stream ∷ []) new_parser
    ≡ feed from_chars (concat (codes "id: 7" ∷ stream ∷ [])) new_parser
feed_all-concat_example = feed_all-concat from_chars (codes "id: 7" ∷ stream ∷ []) new_parser tt

abbrev open_connection : Connection
open_connection = record { locked = true; running = true; available = true }

-- A header, two bodies that are merged while the header is being written, and both writes.
abbrev history : List (Connection × Event)
history =
    (open_connection, enqueues (header_message 9 100))
    ∷ (open_connection, enqueues (body_message (codes "ab") 50))
    ∷ (open_connection, enqueues (body_message (codes "c") 70))
    ∷ (open_connection, completes false)
    ∷ (open_connection, completes false)
    ∷ []

new_message_queue-IsConsistent : IsConsistent new_message_queue
new_message_queue-IsConsistent = record { counted = refl; flying = refl; lively = inl refl }

queue : Unit {0}
unfolding start_write_body start_write_header start_write_if_needed enqueue_on_strand
    pop_front_n_and_notify_if_empty handle_body_write_complete handle_header_write_complete
    complete_write step
queue = tt

queue_tests :
    ((run history new_message_queue).queue ≡ [])
    × (wait_is_over (run history new_message_queue) ≡ true)
unfolding queue
queue_tests = (refl, refl)

run-IsConsistent_example : IsConsistent (run history new_message_queue)
run-IsConsistent_example = run-IsConsistent history new_message_queue new_message_queue-IsConsistent

run-delivers_example :
    all_delivered history new_message_queue ++ contents (run history new_message_queue).queue
    ≡ contents new_message_queue.queue ++ all_added history
run-delivers_example = run-delivers history new_message_queue new_message_queue-IsConsistent

wait_drained_example : all_delivered history new_message_queue ≡ all_added history
unfolding queue
wait_drained_example =
    wait_drained history new_message_queue new_message_queue-IsConsistent refl refl refl
