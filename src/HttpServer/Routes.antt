-- ===== src/HttpServer/Routes.antt =====
-- The thread of backend/src/http_server.cpp: the choice of a handler by the path, and what a client is sent.
-- The paths differ, so that the order of the tests does not matter. The handlers of the sights, and those
-- that simulate formations, are an argument, `features`.
use Prim.Native.String.{String}
use ai_solo_coder_task_b.Prelude.{ℕ, Option, some, ◌>>=◌, List, [], ◌∷◌, if◌then◌else◌}
use ai_solo_coder_task_b.Prelude.Bytes.{Bytes, utf8, ◌=ᵇ◌}
use ai_solo_coder_task_b.Double.{Double}
use ai_solo_coder_task_b.UdpReceiver.{fill_buffer, c_string}
use ai_solo_coder_task_b.HttpServer.{HttpServer, Ambient, build_response}
use ai_solo_coder_task_b.HttpServer.Json.{Library}
use ai_solo_coder_task_b.HttpServer.Request.{Params, get_path, parse_url_params}
use ai_solo_coder_task_b.HttpServer.Handlers.{
  Reply, handle_get_crossbow_types, handle_get_sensor_data, handle_get_shot_history,
  handle_get_alerts, handle_get_accuracy, handle_simulate_shot, handle_run_accuracy_analysis,
  handle_resolve_alert, handle_get_system_status, handle_get_ballistic_result,
}
use ai_solo_coder_task_b.HttpServer.Bowstrings.{
  handle_get_bowstring_materials, handle_compare_bowstring_materials,
  handle_get_bowstring_efficiency_curve, handle_optimize_bowstring,
}
use ai_solo_coder_task_b.HttpServer.Formations.{handle_get_formation_types}

-- A handler as the thread calls it, and the handlers with their paths in the order of the tests.
abbrev pub Handler : Type 0 → Type 0 → Type 0
Handler W S = Params → HttpServer W S → Reply W S

abbrev pub Table : Type 0 → Type 0 → Type 0
Table W S = List (String × Handler W S)

-- The body for a path that no test asks for.
abbrev pub default_body : Bytes
default_body = utf8 "{\"status\":\"running\",\"version\":\"2.0\"}"

abbrev pub bad_request : Bytes
bad_request = utf8 "{\"error\":\"bad request\"}"

-- `sizeof(buffer) - 1`.
abbrev pub request_room : ℕ
request_room = 8191

module _ {W S : Type 0} where
  unfoldable pub dispatch : Table W S → Bytes → Handler W S
  dispatch [] path params s = some (default_body, s)
  dispatch ((route, handler) ∷ table) path params s =
      if path =ᵇ utf8 route then handler params s else dispatch table path params s

  abbrev pub joined : Table W S → Table W S → Table W S
  joined [] after = after
  joined (entry ∷ table) after = entry ∷ joined table after

  module _ ⦃d : Double W⦄ (lib : Library W) (ambient : Ambient W) where
    abbrev pub services : Table W S
    services =
        ("/api/crossbow-types", handle_get_crossbow_types lib ambient)
        ∷ ("/api/sensor-data", handle_get_sensor_data lib ambient)
        ∷ ("/api/shot-history", handle_get_shot_history lib ambient)
        ∷ ("/api/alerts", handle_get_alerts lib ambient)
        ∷ ("/api/accuracy", handle_get_accuracy lib ambient)
        ∷ ("/api/simulate-shot", handle_simulate_shot lib ambient)
        ∷ ("/api/run-analysis", handle_run_accuracy_analysis lib ambient)
        ∷ ("/api/resolve-alert", handle_resolve_alert lib ambient)
        ∷ ("/api/system-status", handle_get_system_status lib ambient)
        ∷ ("/api/ballistic-result", handle_get_ballistic_result lib ambient)
        ∷ ("/api/bowstring-materials", handle_get_bowstring_materials lib ambient)
        ∷ ("/api/bowstring-compare", handle_compare_bowstring_materials lib ambient)
        ∷ ("/api/bowstring-efficiency-curve", handle_get_bowstring_efficiency_curve lib ambient)
        ∷ ("/api/bowstring-optimize", handle_optimize_bowstring lib ambient)
        ∷ ("/api/formation-types", handle_get_formation_types lib)
        ∷ []

    abbrev pub routes : Table W S → Table W S
    routes features =
        joined services (joined features (("/", handle_get_system_status lib ambient) ∷ []))

    unfoldable pub respond : Table W S → Bytes → HttpServer W S → Reply W S
    unfolding dispatch
    respond features request s = do
      (body, s') ← dispatch (routes features) (get_path request) (parse_url_params request) s
      some (build_response body, s')

    -- A client that sends these bytes, from the `recv` on; without a byte it is told so.
    unfoldable pub serve_client : Table W S → Bytes → HttpServer W S → Reply W S
    unfolding fill_buffer c_string respond
    serve_client features bytes s = elim (fill_buffer request_room bytes) [
      | [] ↦ some (build_response bad_request, s)
      | b ∷ rest ↦ respond features (c_string (b ∷ rest)) s
    ]

    -- The clients of a run, in the order in which they are accepted: what each is sent. An exception in a
    -- handler leaves the thread, and the process ends.
    unfoldable pub serve_all :
        Table W S → List Bytes → HttpServer W S → Option (List Bytes × HttpServer W S)
    unfolding serve_client
    serve_all features [] s = some ([], s)
    serve_all features (bytes ∷ clients) s = do
      (response, s') ← serve_client features bytes s
      (responses, s'') ← serve_all features clients s'
      some (response ∷ responses, s'')
