-- ===== src/Connection/Queue/Laws.antt =====
-- The invariant of the message queue, and that every step keeps it.
use bsrvcore.Base.{
  ℕ, suc, ◌≤◌, ◌<◌, ◌≡◌, refl, sym, ◌∙◌, ap, Bytes, take, length, ◌==◌, List, [], ◌∷◌, ◌++◌, Bool,
  true, false, Option, none, some, arith, Bool-cases, inl, inr, ◌⊎◌,
}
use bsrvcore.Connection.Queue.{
  Message, body_message, header_message, Write, write_body, write_header, Connection, MessageQueue,
  usable, batch_count, merged, start_write_body, start_write_header, start_write_if_needed,
}

-- What goes over the wire: bytes of bodies, and whole headers.
pub data Item : Type 0 where
  byte header : ℕ → Item

abbrev pub bytes : Bytes → List Item
bytes [] = []
bytes (c ∷ s) = byte c ∷ bytes s

abbrev pub content : Message → List Item
content (body_message msg expiry) = bytes msg
content (header_message h expiry) = header h ∷ []

abbrev pub contents : List Message → List Item
contents [] = []
contents (message ∷ queue) = content message ++ contents queue

abbrev pub written : Write → List Item
written (write_body text count) = bytes text
written (write_header h) = header h ∷ []

abbrev pub taken_by : Write → ℕ
taken_by (write_body text count) = count
taken_by (write_header h) = 1

-- A write in flight carries the first messages of the queue, which are still in it.
abbrev pub Carries : List Message → Write → Type 0
Carries queue w =
    (0 < taken_by w)
    × (taken_by w ≤ length queue)
    × (contents (take (taken_by w) queue) ≡ written w)

abbrev pub InFlight : List Message → Bool → Option Write → Type 0
InFlight queue is_writing none = is_writing ≡ false
InFlight queue is_writing (some w) = (is_writing ≡ true) × Carries queue w

-- The counter is the queue's length, a write is in flight exactly while `is_writing_` is set, and
-- what is queued is being written unless the connection is dead.
pub record IsConsistent (m : MessageQueue) : Type 0 where
  pub counted : m.queue_size ≡ length m.queue
  pub flying : InFlight m.queue m.is_writing m.in_flight
  pub lively : (m.queue ≡ []) ⊎ (m.is_writing ≡ true) ⊎ (m.connection_dead ≡ true)

bytes-append : (s t : Bytes) → bytes (s ++ t) ≡ bytes s ++ bytes t
bytes-append [] t = refl
bytes-append (c ∷ s) t = ap (◌∷◌ (byte c)) (bytes-append s t)

batch_count-le : (queue : List Message) → batch_count queue ≤ length queue
batch_count-le [] = omega arith
batch_count-le (body_message msg expiry ∷ queue) = omega (arith, batch_count-le queue)
batch_count-le (header_message h expiry ∷ queue) = omega arith

merged-contents :
    (queue : List Message)
    → contents (take (batch_count queue) queue) ≡ bytes (merged (batch_count queue) queue)
merged-contents [] = refl
merged-contents (body_message msg expiry ∷ queue) =
    ap (◌++◌ (bytes msg)) (merged-contents queue)
    ∙ sym (bytes-append msg (merged (batch_count queue) queue))
merged-contents (header_message h expiry ∷ queue) = refl

pub not_zero : (n : ℕ) → (suc n == 0) ≡ false
not_zero n = ground arith

-- The state in which the last line of each handler starts a write.
pub record IsIdle (m : MessageQueue) : Type 0 where
  pub counted : m.queue_size ≡ length m.queue
  pub idle : m.is_writing ≡ false
  pub landed : m.in_flight ≡ none

-- A step's outcome: the invariant, and the queue it leaves.
pub record Leaves (queue : List Message) (m : MessageQueue) : Type 0 where
  pub consistent : IsConsistent m
  pub left : m.queue ≡ queue

pub dead-Leaves :
    (m : MessageQueue) (queue : List Message)
    → m.queue ≡ queue
    → m.queue_size ≡ length m.queue
    → m.is_writing ≡ false
    → m.in_flight ≡ none
    → m.connection_dead ≡ true
    → Leaves queue m
dead-Leaves m queue q c w f d = record {
  consistent = record { counted = c; flying = rw f w; lively = inr (inr d) };
  left = q;
}

pub start_write_if_needed-Leaves :
    (c : Connection) (m : MessageQueue)
    → IsIdle m
    → (queue : List Message) → m.queue ≡ queue
    → Leaves queue (start_write_if_needed c m)
unfolding start_write_if_needed start_write_body start_write_header
start_write_if_needed-Leaves c m i [] e = rw e (record {
  consistent = record {
    counted = rw e at i.counted;
    flying = rw i.landed i.idle;
    lively = inl refl;
  };
  left = refl;
})
start_write_if_needed-Leaves c m i (body_message msg expiry ∷ later) e =
    elim (Bool-cases (usable c)) [
      | inl u ↦
          rw (e, i.idle, u, not_zero (batch_count later))
            (record {
              consistent = record {
                counted = rw e at i.counted;
                flying = (
                  refl,
                  (
                    omega arith,
                    batch_count-le (body_message msg expiry ∷ later),
                    merged-contents (body_message msg expiry ∷ later),
                  ),
                );
                lively = inr (inl refl);
              };
              left = refl;
            })
      | inr u ↦ rw (e, i.idle, u) (dead-Leaves _ _ refl (rw e at i.counted) refl i.landed refl)
    ]
start_write_if_needed-Leaves c m i (header_message h expiry ∷ later) e =
    elim (Bool-cases (usable c)) [
      | inl u ↦
          rw (e, i.idle, u)
            (record {
              consistent = record {
                counted = rw e at i.counted;
                flying = (refl, (omega arith, omega arith, refl));
                lively = inr (inl refl);
              };
              left = refl;
            })
      | inr u ↦ rw (e, i.idle, u) (dead-Leaves _ _ refl (rw e at i.counted) refl i.landed refl)
    ]
