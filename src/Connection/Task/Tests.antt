-- ===== src/Connection/Task/Tests.antt =====
-- Tasks with concrete aspects, handlers and connections.
use bsrvcore.Base.{
  ◌≡◌, refl, Bytes, codes, bytes_eq, if◌then◌else◌, List, [], ◌∷◌, ◌++◌, true, false, some,
}
use bsrvcore.Connection.Cookies.Server.{ServerSetCookie, new_set_cookie, cookie_to_string}
use bsrvcore.Connection.Task.{
  automatic, manual, web_socket, requested, no_upgrade, Fields, Shared, pre_service, service,
  post_service, do_write_response, do_close, do_cycle, start_websocket, Readings, Http, Aspect,
}
use bsrvcore.Connection.Task.Finalize.Acts.{IsUp}
use bsrvcore.Connection.Task.Phases.{run_task}

-- `set` takes the fields of the name out first.
abbrev without : Bytes → Fields → Fields
without name [] = []
without name ((n, v) ∷ fs) = if bytes_eq n name then without name fs else (n, v) ∷ without name fs

abbrev http : Http
http = record {
  to_string = λ _. codes "1";
  insert = λ name value fs. fs ++ (name, value) ∷ [];
  set = λ name value fs. without name fs ++ (name, value) ∷ [];
}

abbrev up : Readings
up = record { running = λ _. true; stream = λ _. true; creates = true }

abbrev up-IsUp : IsUp up
up-IsUp = record { runs = λ _. refl; streams = λ _. refl }

abbrev pair : Bytes → Bytes → ServerSetCookie
pair name value = record new_set_cookie { name = some name; value = some value }

abbrev fresh : Shared
fresh = record {
  conn = true;
  mode = automatic;
  upgrade_state = no_upgrade;
  upgrade_handler = false;
  set_cookies = pair (codes "a") (codes "1") ∷ pair (codes "b") (codes "2") ∷ [];
  fields = [];
  body = [];
  keep_alive = true;
}

abbrev passing_aspect : Aspect
passing_aspect = record { on_pre = λ s. (s, false); on_post = λ s. s }

abbrev failing_aspect : Aspect
failing_aspect = record { on_pre = λ s. (record s { body = codes "no" }, true); on_post = λ s. s }

abbrev aspects : List Aspect
aspects = passing_aspect ∷ failing_aspect ∷ passing_aspect ∷ []

abbrev answer : Shared → Shared
answer s = record s { body = codes "hi" }

abbrev upgrade : Shared → Shared
upgrade s = record s { mode = web_socket; upgrade_state = requested; upgrade_handler = true }

abbrev cookie_fields : Fields
cookie_fields = (codes "Set-Cookie", codes "a=1") ∷ (codes "Set-Cookie", codes "b=2") ∷ []

-- A failure skips the handler and the third aspect; a WebSocket gets the last of two cookies.
task_tests :
    ((run_task http up aspects (some answer) false fresh).1
      ≡ pre_service 0
        ∷ pre_service 1
        ∷ post_service 1
        ∷ post_service 0
        ∷ do_write_response cookie_fields (codes "no") true
        ∷ [])
    × ((run_task http up (passing_aspect ∷ []) (some answer) false fresh).1
        ≡ pre_service 0
          ∷ service
          ∷ post_service 0
          ∷ do_write_response cookie_fields (codes "hi") true
          ∷ [])
    × ((run_task http up [] (some answer) false (record fresh { mode = manual })).1
        ≡ service ∷ do_cycle ∷ [])
    × ((run_task http up [] (some upgrade) false fresh).1
        ≡ service ∷ start_websocket ((codes "Set-Cookie", codes "b=2") ∷ []) ∷ [])
    × ((run_task http
          (record up { running = λ _. false })
          (passing_aspect ∷ [])
          (some answer)
          false
          fresh).1
        ≡ pre_service 0 ∷ do_close ∷ [])
unfolding run_task cookie_to_string bytes_eq
task_tests = (refl, refl, refl, refl, refl)
