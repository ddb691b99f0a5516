-- ===== src/Connection/Queue/Delivery.antt =====
-- Whatever the history of a message queue, the messages go out in the order they came in.
use bsrvcore.Base.{
  ℕ, zero, suc, ◌≡◌, refl, sym, ◌∙◌, ap, subst, take, drop, length, List, [], ◌∷◌, ◌++◌,
  append_assoc, append-nil, Bool, true, false, Option, none, some, arith, inr,
}
use bsrvcore.Connection.Queue.{
  Message, Write, write_body, write_header, Connection, MessageQueue, complete_write,
  handle_body_write_complete, handle_header_write_complete, wait_is_over, Event, enqueues,
  completes, finds_connection_gone, step, run,
}
use bsrvcore.Connection.Queue.Laws.{
  Item, content, contents, written, taken_by, Carries, InFlight, IsConsistent, Leaves,
}
use bsrvcore.Connection.Queue.Handlers.{
  after_write, enqueue_on_strand-Leaves, handle_body_write_complete-Leaves,
  handle_header_write_complete-Leaves,
}

-- What an event adds to the queue, and what has been delivered when it ends.
abbrev pub added : Event → List Item
added (enqueues message) = content message
added (completes ec) = []
added finds_connection_gone = []

abbrev pub landed : Bool → Option Write → List Item
landed true o = []
landed false none = []
landed false (some w) = written w

abbrev pub delivered : Event → MessageQueue → List Item
delivered (enqueues message) m = []
delivered (completes ec) m = landed ec m.in_flight
delivered finds_connection_gone m = []

-- The same of a history.
abbrev pub all_added : List (Connection × Event) → List Item
all_added [] = []
all_added ((c, x) ∷ xs) = added x ++ all_added xs

abbrev pub all_delivered : List (Connection × Event) → MessageQueue → List Item
all_delivered [] m = []
all_delivered ((c, x) ∷ xs) m = delivered x m ++ all_delivered xs (step c x m)

contents-append :
    (queue : List Message) (message : Message)
    → contents (queue ++ message ∷ []) ≡ contents queue ++ content message
contents-append [] message = append-nil (content message)
contents-append (x ∷ queue) message =
    ap (◌++◌ (content x)) (contents-append queue message)
    ∙ sym (append_assoc (content x) (contents queue) (content message))

contents-take-drop :
    (n : ℕ) (queue : List Message)
    → contents (take n queue) ++ contents (drop n queue) ≡ contents queue
contents-take-drop zero queue = refl
contents-take-drop (suc n) [] = refl
contents-take-drop (suc n) (x ∷ queue) =
    append_assoc (content x) (contents (take n queue)) (contents (drop n queue))
    ∙ ap (◌++◌ (content x)) (contents-take-drop n queue)

-- One step: the invariant, and that nothing is lost or reordered.
record Conserves (gone more : List Item) (m m' : MessageQueue) : Type 0 where
  consistent : IsConsistent m'
  balance : gone ++ contents m'.queue ≡ contents m.queue ++ more

after_write-balance :
    (ec : Bool) (w : Write) (queue : List Message)
    → Carries queue w
    → landed ec (some w) ++ contents (after_write ec w queue) ≡ contents queue
after_write-balance true w queue h = refl
after_write-balance false w queue h =
    subst (λ u. u ++ contents (drop (taken_by w) queue) ≡ contents queue) h.2
      (contents-take-drop (taken_by w) queue)

Leaves-Conserves :
    (ec : Bool) (w : Write) (m m' : MessageQueue)
    → Carries m.queue w
    → Leaves (after_write ec w m.queue) m'
    → Conserves (landed ec (some w)) [] m m'
Leaves-Conserves ec w m m' h l = record {
  consistent = l.consistent;
  balance =
      ap (λ q. landed ec (some w) ++ contents q) l.left
      ∙ after_write-balance ec w m.queue h
      ∙ sym (append-nil (contents m.queue));
}

complete_write-Conserves :
    (c : Connection) (ec : Bool) (m : MessageQueue)
    → IsConsistent m
    → (o : Option Write) → m.in_flight ≡ o
    → Conserves (landed ec o) [] m (complete_write c ec m)
unfolding complete_write
complete_write-Conserves c true m i none e =
    rw (e, complete_write)
      (record { consistent = i; balance = sym (append-nil (contents m.queue)) })
complete_write-Conserves c false m i none e =
    rw (e, complete_write)
      (record { consistent = i; balance = sym (append-nil (contents m.queue)) })
complete_write-Conserves c ec m i (some w) e =
    let carried : Carries m.queue w = (subst (InFlight m.queue m.is_writing) e i.flying).1 in
    go w e carried
  where
    go :
        (v : Write)
        → m.in_flight ≡ some v
        → Carries m.queue v
        → Conserves (landed ec (some v)) [] m (complete_write c ec m)
    go (write_body text count) f carried =
        subst
          (λ o. Conserves (landed ec (some (write_body text count))) [] m (elim o [
            | none ↦ m
            | some w ↦ elim w [
              | write_body t n ↦ handle_body_write_complete c ec n (record m { in_flight = none })
              | write_header h ↦ handle_header_write_complete c ec (record m { in_flight = none })
            ]
          ]))
          (sym f)
          (Leaves-Conserves ec (write_body text count) m _ carried (
            handle_body_write_complete-Leaves c (record m { in_flight = none }) i.counted refl ec
              text count carried))
    go (write_header h) f carried =
        subst
          (λ o. Conserves (landed ec (some (write_header h))) [] m (elim o [
            | none ↦ m
            | some w ↦ elim w [
              | write_body t n ↦ handle_body_write_complete c ec n (record m { in_flight = none })
              | write_header h ↦ handle_header_write_complete c ec (record m { in_flight = none })
            ]
          ]))
          (sym f)
          (Leaves-Conserves ec (write_header h) m _ carried (
            handle_header_write_complete-Leaves c (record m { in_flight = none }) i.counted refl ec
              h carried))

step-Conserves :
    (c : Connection) (x : Event) (m : MessageQueue)
    → IsConsistent m
    → Conserves (delivered x m) (added x) m (step c x m)
unfolding step
step-Conserves c (enqueues message) m i =
    let l = enqueue_on_strand-Leaves c message m i in
    record {
      consistent = l.consistent;
      balance = ap contents l.left ∙ contents-append m.queue message;
    }
step-Conserves c (completes ec) m i = complete_write-Conserves c ec m i m.in_flight refl
step-Conserves c finds_connection_gone m i = record {
  consistent = record { counted = i.counted; flying = i.flying; lively = inr (inr refl) };
  balance = sym (append-nil (contents m.queue));
}

-- Every history of a message queue that is consistent at the start keeps its counter equal to the
-- queue's length, keeps a write in flight exactly while `is_writing_` is set, that write carrying
-- the first messages of the queue, and never leaves a message waiting on a live connection with no
-- write in flight.
pub run-IsConsistent :
    (xs : List (Connection × Event)) (m : MessageQueue) → IsConsistent m → IsConsistent (run xs m)
run-IsConsistent [] m i = i
run-IsConsistent ((c, x) ∷ xs) m i =
    run-IsConsistent xs (step c x m) (step-Conserves c x m i).consistent

-- Over every history of a message queue that is consistent at the start, what the writes that ended
-- without an error have delivered, followed by what is still queued, is what was queued at the
-- start followed by what was enqueued: bodies and headers go out in the order in which they came,
-- although bodies are merged and writes may fail.
pub run-delivers :
    (xs : List (Connection × Event)) (m : MessageQueue)
    → IsConsistent m
    → all_delivered xs m ++ contents (run xs m).queue ≡ contents m.queue ++ all_added xs
run-delivers [] m i = sym (append-nil (contents m.queue))
run-delivers ((c, x) ∷ xs) m i =
    let s = step-Conserves c x m i in
    let m' = step c x m in
    append_assoc (delivered x m) (all_delivered xs m') (contents (run xs m').queue)
    ∙ ap (◌++◌ (delivered x m)) (run-delivers xs m' s.consistent)
    ∙ sym (append_assoc (delivered x m) (contents m'.queue) (all_added xs))
    ∙ ap (λ u. u ++ all_added xs) s.balance
    ∙ append_assoc (contents m.queue) (added x) (all_added xs)

empty_of_length : (queue : List Message) → length queue ≡ 0 → queue ≡ []
empty_of_length [] e = refl
empty_of_length (x ∷ queue) e = absurd (omega arith)

-- When `Wait` may return after a history that began with a consistent queue that holds nothing, and
-- the connection was not marked dead, everything that was enqueued has been delivered.
pub wait_drained :
    (xs : List (Connection × Event)) (m : MessageQueue)
    → IsConsistent m
    → m.queue ≡ []
    → wait_is_over (run xs m) ≡ true
    → (run xs m).connection_dead ≡ false
    → all_delivered xs m ≡ all_added xs
wait_drained xs m i e over alive =
    let size : (run xs m).queue_size ≡ 0 = ground (arith, over, alive) in
    let done = empty_of_length (run xs m).queue (sym (run-IsConsistent xs m i).counted ∙ size) in
    sym (append-nil (all_delivered xs m))
    ∙ ap (λ q. all_delivered xs m ++ contents q) (sym done)
    ∙ run-delivers xs m i
    ∙ ap (λ q. contents q ++ all_added xs) e
