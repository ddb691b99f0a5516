-- ===== src/Connection/Sse.antt =====
-- src/connection/client/sse_event_parser.cc: events from a stream that arrives in chunks.
pub mod Laws
use bsrvcore.Base.{
  ℕ, zero, suc, ◌+◌, ◌*◌, ◌-◌, Bytes, codes, is_empty, bytes_eq, find, upto, take, drop, length,
  ◌==◌, leb, ltb, ◌&&◌, if◌then◌else◌, List, [], ◌∷◌, ◌++◌, Bool, true, false, Option, none, some,
  not,
}
use bsrvcore.Route.Segments.{front_is, back_is}
use bsrvcore.Route.Mount.{pop_back}

pub record SseEvent : Type 0 where
  pub id : Bytes
  pub event : Bytes
  pub data_text : Bytes
  pub retry_ms : Option ℕ

abbrev pub empty_event : SseEvent
empty_event = record { id = []; event = []; data_text = []; retry_ms = none }

-- What the lines so far have left in the parser, its buffer apart.
pub record Building : Type 0 where
  pub current : SseEvent
  pub has_field : Bool

abbrev pub no_fields : Building
no_fields = record { current = empty_event; has_field = false }

pub record SseEventParser : Type 0 where
  pub pending : Bytes
  pub building : Building

abbrev pub new_parser : SseEventParser
new_parser = record { pending = []; building = no_fields }

unfoldable pub trim_leading_single_space : Bytes → Bytes
trim_leading_single_space [] = []
trim_leading_single_space (c ∷ s) = if c == b' ' then s else c ∷ s

-- The field and the value of a line.
unfoldable pub field_value : Bytes → Bytes × Bytes
unfolding find trim_leading_single_space
field_value line = elim (find b':' line) [
  | none ↦ (line, [])
  | some colon ↦ (take colon line, trim_leading_single_space (drop (suc colon) line))
]

unfoldable pub emit_event_if_ready : Building → Building × List SseEvent
emit_event_if_ready b = if b.has_field then (no_fields, b.current ∷ []) else (b, [])

abbrev pub strip_cr : Bytes → Bytes
strip_cr line = if back_is b'\r' line then pop_back line else line

-- `std::from_chars` into an `int`, where all of the text is to be read and the number is not to be
-- negative, is a parameter.
module _ (from_chars : Bytes → Option ℕ) where
  unfoldable pub apply_sse_field : Bytes → Bytes → Building → Building
  unfolding bytes_eq
  apply_sse_field field value b =
      let e = b.current in
      let separated = if is_empty e.data_text then [] else e.data_text ++ b'\n' ∷ [] in
      if bytes_eq field (codes "data")
      then record { current = record e { data_text = separated ++ value }; has_field = true }
      else (if bytes_eq field (codes "id")
          then record { current = record e { id = value }; has_field = true }
          else (if bytes_eq field (codes "event")
              then record { current = record e { event = value }; has_field = true }
              else (if bytes_eq field (codes "retry")
                  then (elim (from_chars value) [
                    | none ↦ b
                    | some retry ↦ record {
                      current = record e { retry_ms = some retry };
                      has_field = true;
                    }
                  ])
                  else b)))

  -- `ConsumeLine`, and the events that it appends.
  unfoldable pub consume_line : Bytes → Building → Building × List SseEvent
  unfolding apply_sse_field field_value emit_event_if_ready
  consume_line line b =
      if is_empty line
      then emit_event_if_ready b
      else (if front_is b':' line
          then (b, [])
          else (let (field, value) = field_value line in (apply_sse_field field value b, [])))

  -- The loop of `FeedAllocated` over what is left of the buffer; each round takes at least a byte.
  unfoldable pub feed_loop : ℕ → Bytes → Building → SseEventParser × List SseEvent
  feed_loop zero pending b = (record { pending = pending; building = b }, [])
  feed_loop (suc fuel) pending b = elim (find b'\n' pending) [
    | none ↦ (record { pending = pending; building = b }, [])
    | some line_end ↦
        let (b', events) = consume_line (strip_cr (take line_end pending)) b in
        let (p, later) = feed_loop fuel (drop (suc line_end) pending) b' in (p, events ++ later)
  ]

  unfoldable pub feed : Bytes → SseEventParser → SseEventParser × List SseEvent
  unfolding feed_loop
  feed chunk p = feed_loop (suc (length (p.pending ++ chunk))) (p.pending ++ chunk) p.building

abbrev pub reset : SseEventParser → SseEventParser
reset p = new_parser
