-- ===== src/Connection/Queue/Handlers.antt =====
-- What each handler of the message queue leaves in the queue.
use bsrvcore.Base.{
  ℕ, zero, suc, ◌+◌, ◌≤◌, ◌≡◌, refl, sym, ◌∙◌, ap, subst, min, Bytes, drop, take, length,
  length-append, length-drop, List, [], ◌∷◌, ◌++◌, Bool, true, false, Option, none, some, arith,
  Bool-cases, inl, inr,
}
use bsrvcore.Connection.Queue.{
  Message, Write, write_body, write_header, Connection, MessageQueue, start_write_if_needed,
  enqueue_on_strand, pop_front_n_and_notify_if_empty, pop_front_and_notify_if_empty, cancel_timeout,
  handle_write_error, handle_body_write_complete, handle_header_write_complete,
}
use bsrvcore.Connection.Queue.Laws.{
  InFlight, Carries, contents, taken_by, IsConsistent, Leaves, not_zero, dead-Leaves,
  start_write_if_needed-Leaves,
}

take-append :
    (n : ℕ) (queue later : List Message) → n ≤ length queue → take n (queue ++ later) ≡ take n queue
take-append zero queue later h = refl
take-append (suc n) [] later h = absurd (omega arith)
take-append (suc n) (x ∷ queue) later h = ap (◌∷◌ x) (take-append n queue later (omega arith))

Carries-append :
    (queue later : List Message) (w : Write) → Carries queue w → Carries (queue ++ later) w
Carries-append queue later w (some_taken, inside, carried) = (
  some_taken,
  omega (arith, inside, length-append queue later),
  ap contents (take-append (taken_by w) queue later inside) ∙ carried,
)

-- A queue that is being written, or of a dead connection, takes another message as it is.
enqueue-busy :
    (c : Connection) (message : Message) (m : MessageQueue)
    → m.is_writing ≡ true
    → enqueue_on_strand c message m
      ≡ record m { queue = m.queue ++ message ∷ []; queue_size = m.queue_size + 1 }
unfolding enqueue_on_strand start_write_if_needed
enqueue-busy c message m e = let (first, later, q) = append-cons m.queue message in rw (q, e) refl
  where
    append-cons :
        (queue : List Message) (x : Message)
        → (first : Message) × (later : List Message) × (queue ++ x ∷ [] ≡ first ∷ later)
    append-cons [] x = (x, [], refl)
    append-cons (y ∷ queue) x = (y, queue ++ x ∷ [], refl)

InFlight-idle : (queue : List Message) (o : Option Write) → InFlight queue false o → o ≡ none
InFlight-idle queue none h = refl
InFlight-idle queue (some w) h = cc

InFlight-append :
    (queue later : List Message) (is_writing : Bool) (o : Option Write)
    → InFlight queue is_writing o
    → InFlight (queue ++ later) is_writing o
InFlight-append queue later is_writing none h = h
InFlight-append queue later is_writing (some w) (on, h) = (on, Carries-append queue later w h)

pub enqueue_on_strand-Leaves :
    (c : Connection) (message : Message) (m : MessageQueue)
    → IsConsistent m
    → Leaves (m.queue ++ message ∷ []) (enqueue_on_strand c message m)
enqueue_on_strand-Leaves c message m i =
    let sized : m.queue_size + 1 ≡ length (m.queue ++ message ∷ []) =
      omega (arith, i.counted, length-append m.queue (message ∷ [])) in
    elim (Bool-cases m.is_writing) [
      | inl e ↦
          subst (Leaves (m.queue ++ message ∷ [])) (sym (enqueue-busy c message m e)) (record {
            consistent = record {
              counted = sized;
              flying = InFlight-append m.queue (message ∷ []) m.is_writing m.in_flight i.flying;
              lively = inr (inl e);
            };
            left = refl;
          })
      | inr e ↦
          let landed = InFlight-idle m.queue m.in_flight (rw e at i.flying) in
          unfold enqueue_on_strand in
          start_write_if_needed-Leaves c
            (record m { queue = m.queue ++ message ∷ []; queue_size = m.queue_size + 1 })
            (record { counted = sized; idle = e; landed = landed }) (m.queue ++ message ∷ []) refl
    ]

-- The queue after the handler of a write: what the write took is gone, if it did not fail.
abbrev pub after_write : Bool → Write → List Message → List Message
after_write true w queue = queue
after_write false w queue = drop (taken_by w) queue

handle_write_error-Leaves :
    (c : Connection) (m : MessageQueue)
    → m.queue_size ≡ length m.queue
    → m.in_flight ≡ none
    → Leaves m.queue (handle_write_error c m)
handle_write_error-Leaves c m counted landed =
    dead-Leaves (handle_write_error c m) m.queue refl counted refl landed refl

-- What the pops leave, when there are as many messages as they take.
pop_front_n_lem :
    (count : ℕ) (m : MessageQueue)
    → m.queue_size ≡ length m.queue
    → suc count ≤ length m.queue
    → let popped = pop_front_n_and_notify_if_empty (suc count) m in
      (popped.queue ≡ drop (suc count) m.queue)
      × (popped.queue_size ≡ length (drop (suc count) m.queue))
      × (popped.in_flight ≡ m.in_flight)
unfolding pop_front_n_and_notify_if_empty
pop_front_n_lem count m counted h =
    let all : min (suc count) (length m.queue) ≡ suc count = omega (arith, h) in
    rw (not_zero count, all)
      (refl, ground (arith, counted, h, length-drop (suc count) m.queue), refl)

module _ (c : Connection) (m : MessageQueue) (counted : m.queue_size ≡ length m.queue)
    (landed : m.in_flight ≡ none) where
  pub handle_body_write_complete-Leaves :
      (ec : Bool) (text : Bytes) (count : ℕ)
      → Carries m.queue (write_body text count)
      → Leaves
          (after_write ec (write_body text count) m.queue)
          (handle_body_write_complete c ec count m)
  unfolding handle_body_write_complete
  handle_body_write_complete-Leaves true text count h =
      handle_write_error-Leaves c (cancel_timeout c m) counted landed
  handle_body_write_complete-Leaves false text (suc count) h =
      let popped = pop_front_n_and_notify_if_empty (suc count) (cancel_timeout c m) in
      let (queue, size, flying) = pop_front_n_lem count (cancel_timeout c m) counted h.1 in
      start_write_if_needed-Leaves c (record popped { is_writing = false })
        (record { counted = size ∙ ap length (sym queue); idle = refl; landed = flying ∙ landed })
        (drop (suc count) m.queue) queue
  handle_body_write_complete-Leaves false text zero h = absurd (omega (arith, h.0))

  pub handle_header_write_complete-Leaves :
      (ec : Bool) (h : ℕ)
      → Carries m.queue (write_header h)
      → Leaves (after_write ec (write_header h) m.queue) (handle_header_write_complete c ec m)
  unfolding handle_header_write_complete
  handle_header_write_complete-Leaves true h k =
      handle_write_error-Leaves c (cancel_timeout c m) counted landed
  handle_header_write_complete-Leaves false h k =
      let popped = pop_front_and_notify_if_empty (cancel_timeout c m) in
      start_write_if_needed-Leaves c (record popped { is_writing = false })
        (record {
          counted = ground (arith, counted, k.1, length-drop 1 m.queue);
          idle = refl;
          landed = landed;
        })
        (drop 1 m.queue) refl
