-- ===== src/Connection/Task/Finalize.antt =====
-- The end of a task: what becomes of the response and the connection.
pub mod Laws
pub mod Acts
use bsrvcore.Base.{
  ℕ, Bytes, codes, is_empty, ◌&&◌, not, if◌then◌else◌, List, [], ◌∷◌, ◌++◌, Bool, true, false,
}
use bsrvcore.Connection.Cookies.Server.{ServerSetCookie, cookie_to_string}
use bsrvcore.Connection.Task.{
  Mode, automatic, manual, web_socket, WebSocketUpgradeState, no_upgrade, requested,
  header_prepared, task_started, Fields, Shared, Call, do_write_response, do_close, do_cycle,
  start_websocket, Readings, at_submit, at_close, at_manual, Http, Check,
}

-- A step gives the state and the calls that it has made.
abbrev pub Step : Type 0
Step = Shared × List Call

-- `IsTaskEnvironmentAvailable`.
abbrev pub is_task_environment_available : Readings → Check → Shared → Bool
is_task_environment_available r check s = r.running check && (s.conn && r.stream check)

unfoldable pub try_close_connection : Readings → Shared → Step
try_close_connection r s =
    if not s.conn
    then (s, [])
    else (record s { conn = false }, if r.stream at_close then do_close ∷ [] else [])

-- `TryCloseConnection` after other calls.
abbrev pub then_close : Readings → Step → Step
then_close r (s, calls) = let (s', more) = try_close_connection r s in (s', calls ++ more)

pub data Stage : Type 0 where
  write_submitted accept_pending skipped unavailable : Stage

abbrev pub is_manual : Mode → Bool
is_manual automatic = false
is_manual manual = true
is_manual web_socket = false

abbrev pub is_web_socket : Mode → Bool
is_web_socket automatic = false
is_web_socket manual = false
is_web_socket web_socket = true

abbrev pub is_header_prepared : WebSocketUpgradeState → Bool
is_header_prepared no_upgrade = false
is_header_prepared requested = false
is_header_prepared header_prepared = true
is_header_prepared task_started = false

abbrev pub set_cookie_field : Bytes
set_cookie_field = codes "Set-Cookie"

module _ (http : Http) where
  -- The loop of `AppendSetCookies`.
  unfoldable pub append_set_cookies : List ServerSetCookie → Fields → Fields
  append_set_cookies [] fields = fields
  append_set_cookies (c ∷ cs) fields =
      let text = cookie_to_string http.to_string c in
      append_set_cookies cs
        (if is_empty text then fields else http.insert set_cookie_field text fields)

  -- The loop of `MakeResponseHeaderSnapshot`.
  unfoldable pub snapshot : Fields → Fields → Fields
  snapshot [] header = header
  snapshot ((name, value) ∷ fields) header = snapshot fields (http.set name value header)

  -- `SubmitFinalResponseWriteIfNeeded`.
  unfoldable pub submit_final_response : Readings → Shared → Stage × Step
  unfolding append_set_cookies try_close_connection
  submit_final_response r s =
      let fields = append_set_cookies s.set_cookies s.fields in
      if is_manual s.mode
      then (skipped, (s, []))
      else (if not (s.conn && r.stream at_submit)
          then (unavailable, try_close_connection r s)
          else (if is_web_socket s.mode
              then (
                accept_pending,
                (record s { fields = fields; body = []; upgrade_state = header_prepared }, []),
              )
              else (
                write_submitted,
                (
                  record s { fields = fields; conn = false },
                  do_write_response fields s.body s.keep_alive ∷ [],
                ),
              )))

  unfoldable pub finalize_manual_action : Readings → Shared → Step
  unfolding try_close_connection
  finalize_manual_action r s =
      if not (s.conn && r.stream at_manual)
      then try_close_connection r s
      else (record s { conn = false }, (if s.keep_alive then do_cycle else do_close) ∷ [])

  -- `TryStartWebSocketUpgradeTask`, with the snapshot of the header.
  unfoldable pub try_start_upgrade : Readings → Fields → Shared → Step
  unfolding try_close_connection
  try_start_upgrade r header s =
      let taken = record s { upgrade_handler = false } in
      if not (is_header_prepared s.upgrade_state)
      then (s, [])
      else (if not (s.upgrade_handler && s.conn)
          then try_close_connection r taken
          else (if not r.creates then try_close_connection r taken else (
            record taken { conn = false; upgrade_state = task_started },
            start_websocket header ∷ [],
          )))

  -- What follows the stage in each mode.
  abbrev pub after_automatic : Readings → Stage × Step → Step
  after_automatic r (unavailable, done) = done
  after_automatic r (write_submitted, done) = done
  after_automatic r (accept_pending, done) = then_close r done
  after_automatic r (skipped, done) = then_close r done

  abbrev pub after_manual : Readings → Stage × Step → Step
  after_manual r (unavailable, done) = done
  after_manual r (write_submitted, done) = then_close r done
  after_manual r (accept_pending, done) = then_close r done
  after_manual r (skipped, (s, calls)) =
      let (s', more) = finalize_manual_action r s in (s', calls ++ more)

  abbrev pub after_web_socket : Readings → Stage × Step → Step
  after_web_socket r (unavailable, done) = done
  after_web_socket r (write_submitted, done) = then_close r done
  after_web_socket r (skipped, done) = then_close r done
  after_web_socket r (accept_pending, (s, calls)) =
      let (s', more) = try_start_upgrade r (snapshot s.fields []) s in (s', calls ++ more)

  -- `FinalizePostPhaseConnection`.
  unfoldable pub finalize_post_phase : Readings → Mode → Shared → Step
  unfolding submit_final_response finalize_manual_action try_start_upgrade try_close_connection
      snapshot
  finalize_post_phase r automatic s = after_automatic r (submit_final_response r s)
  finalize_post_phase r manual s = after_manual r (submit_final_response r s)
  finalize_post_phase r web_socket s = after_web_socket r (submit_final_response r s)
