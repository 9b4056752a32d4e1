-- ===== src/HttpServer/Handlers.antt =====
-- The handlers of backend/src/http_server.cpp that read and run the services. Every number in a reply is a JSON
-- number of its own type; a reply with no value is a text of its own.
use Prim.Native.String.{String}
use ai_solo_coder_task_b.Prelude.{
  ℕ, Bool, true, false, Option, none, some, ◌>>=◌, List, [], ◌∷◌, map,
}
use ai_solo_coder_task_b.Prelude.Loop.{decimal}
use ai_solo_coder_task_b.Prelude.Bytes.{Bytes, utf8}
use ai_solo_coder_task_b.Double.{Double}
use ai_solo_coder_task_b.Sensor.{SensorData}
use ai_solo_coder_task_b.ClickHouseStorage.{get_crossbow_types}
use ai_solo_coder_task_b.BallisticSimulator.{simulate_shot, get_latest_result}
use ai_solo_coder_task_b.AccuracyAnalyzerService.{get_crossbow_data, get_latest_analysis}
use ai_solo_coder_task_b.AccuracyAnalyzerService.Now.{run_analysis_now}
use ai_solo_coder_task_b.AlarmMqttService.{get_active_alerts}
use ai_solo_coder_task_b.HttpServer.Json.{Json, text, flag, array, object, Library}
use ai_solo_coder_task_b.HttpServer.Replies.{
  crossbow_json, sample_json, alert_json, analysis_json, shot_json, result_json, results_by_id,
  shot_row,
}
use ai_solo_coder_task_b.HttpServer.Request.{Params, param, stoul}
use ai_solo_coder_task_b.HttpServer.{
  HttpServer, Ambient, increment_http_requests, size_or, double_or, to_id,
}

-- What a handler gives: the body and the server, or an exception.
abbrev pub Reply : Type 0 → Type 0 → Type 0
Reply W S = Option (Bytes × HttpServer W S)

abbrev is_some : {A : Type 0} → Option A → Bool
is_some none = false
is_some (some a) = true

abbrev missing_id : Bytes
missing_id = utf8 "{\"error\":\"missing crossbow_id\"}"

abbrev pub first_name : {W : Type 0} → List (SensorData W) → String
first_name [] = ""
first_name (x ∷ xs) = x.crossbow_name

module _ {W S : Type 0} ⦃d : Double W⦄ (lib : Library W) (ambient : Ambient W) where
  open d use {lit}

  unfoldable pub handle_get_crossbow_types : Params → HttpServer W S → Reply W S
  unfolding increment_http_requests crossbow_json
  handle_get_crossbow_types params s = some (
    lib.dump (array (map crossbow_json (get_crossbow_types ambient.built_in s.storage))),
    increment_http_requests "/api/crossbow-types" s,
  )

  -- The samples of the crossbow that the parameters name, as `json` shows them; none without one.
  unfoldable pub reply_samples :
      (SensorData W → Json W) → ℕ → Params → HttpServer W S → Option Bytes
  unfolding param stoul size_or get_crossbow_data
  reply_samples json default params s = elim (param (utf8 "crossbow_id") params) [
    | none ↦ some (lib.dump (array []))
    | some v ↦ elim s.accuracy [
      | none ↦ some (lib.dump (array []))
      | some service ↦ do
        id ← stoul v
        limit ← size_or "limit" default params
        some (lib.dump (array (map json (get_crossbow_data (to_id id) limit service))))
    ]
  ]

  unfoldable pub handle_get_sensor_data : Params → HttpServer W S → Reply W S
  unfolding increment_http_requests reply_samples sample_json
  handle_get_sensor_data params s = do
    body ← reply_samples (sample_json lib) 100 params s
    some (body, increment_http_requests "/api/sensor-data" s)

  unfoldable pub handle_get_shot_history : Params → HttpServer W S → Reply W S
  unfolding increment_http_requests reply_samples shot_row
  handle_get_shot_history params s = do
    body ← reply_samples (shot_row lib) 50 params s
    some (body, increment_http_requests "/api/shot-history" s)

  unfoldable pub handle_get_alerts : Params → HttpServer W S → Reply W S
  unfolding increment_http_requests size_or alert_json
  handle_get_alerts params s =
      let s' = increment_http_requests "/api/alerts" s in
      elim s.alarm [
        | none ↦ some (lib.dump (array []), s')
        | some service ↦ do
          id ← size_or "crossbow_id" 0 params
          some (lib.dump (array (map (alert_json lib) (get_active_alerts (to_id id) service))), s')
      ]

  unfoldable pub handle_get_accuracy : Params → HttpServer W S → Reply W S
  unfolding increment_http_requests param stoul analysis_json get_latest_analysis
  handle_get_accuracy params s =
      let s' = increment_http_requests "/api/accuracy" s in
      elim (param (utf8 "crossbow_id") params) [
        | none ↦ some (utf8 "{}", s')
        | some v ↦ elim s.accuracy [
          | none ↦ some (utf8 "{}", s')
          | some service ↦ do
            id ← stoul v
            some (
              lib.dump (analysis_json (get_latest_analysis ambient.no_analysis (to_id id) service)),
              s',
            )
        ]
      ]

  unfoldable pub handle_simulate_shot : Params → HttpServer W S → Reply W S
  unfolding increment_http_requests param stoul double_or shot_json simulate_shot
  handle_simulate_shot params s =
      let s' = increment_http_requests "/api/simulate-shot" s in
      elim (param (utf8 "crossbow_id") params) [
        | none ↦ some (missing_id, s')
        | some v ↦ elim s.ballistic [
          | none ↦ some (missing_id, s')
          | some service ↦ do
            id ← stoul v
            angle ← double_or lib "angle" (lit 15 0) params
            wind_speed ← double_or lib "wind_speed" (lit 0 0) params
            wind_direction ← double_or lib "wind_direction" (lit 0 0) params
            let (result, service') =
                simulate_shot ambient.blank ambient.fresh ambient.fresh_sample (to_id id) angle
                  wind_speed wind_direction service
            some (lib.dump (shot_json result), record s' { ballistic = some service' })
        ]
      ]

  -- The other threads of the service have their turns between its calls.
  unfoldable pub handle_run_accuracy_analysis : Params → HttpServer W S → Reply W S
  unfolding increment_http_requests param stoul get_crossbow_data run_analysis_now
      handle_get_accuracy
  handle_run_accuracy_analysis params s =
      let s' = increment_http_requests "/api/run-analysis" s in
      elim (param (utf8 "crossbow_id") params) [
        | none ↦ some (missing_id, s')
        | some v ↦ elim s.accuracy [
          | none ↦ some (missing_id, s')
          | some service ↦ do
            id ← stoul v
            let name = first_name (get_crossbow_data (to_id id) 5000 service)
            let (analysis, service') =
                run_analysis_now ambient.now (to_id id) name ambient.during_analysis
                  (ambient.before_analysis service)
            handle_get_accuracy params
                (record s' { accuracy = some (ambient.after_analysis service') })
        ]
      ]

  -- No alert is resolved.
  unfoldable pub handle_resolve_alert : Params → HttpServer W S → Reply W S
  unfolding increment_http_requests
  handle_resolve_alert params s =
      some (utf8 "{\"status\":\"ok\"}", increment_http_requests "/api/resolve-alert" s)

  unfoldable pub handle_get_system_status : Params → HttpServer W S → Reply W S
  unfolding increment_http_requests
  handle_get_system_status params s = some (
    lib.dump (
        object (
          ("status", text "running")
          ∷ ("version", text "2.0_refactored")
          ∷ (
            "architecture",
            text
                "udp_receiver → message_queue → (ballistic_simulator | accuracy_analyzer | alarm_mqtt)",
          )
          ∷ (
            "modules",
            object (
                ("udp_receiver", flag (is_some s.ballistic))
                ∷ ("ballistic_simulator", flag (is_some s.ballistic))
                ∷ ("accuracy_analyzer", flag (is_some s.accuracy))
                ∷ ("alarm_mqtt", flag (is_some s.alarm))
                ∷ []),
          )
          ∷ [])),
    increment_http_requests "/api/system-status" s,
  )

  unfoldable pub handle_get_ballistic_result : Params → HttpServer W S → Reply W S
  unfolding increment_http_requests param stoul result_json get_latest_result decimal
  handle_get_ballistic_result params s =
      let s' = increment_http_requests "/api/ballistic-result" s in
      elim s.ballistic [
        | none ↦ some (utf8 "{}", s')
        | some service ↦ elim (param (utf8 "crossbow_id") params) [
          | none ↦ some (lib.dump (object (results_by_id service.latest_results)), s')
          | some v ↦ do
            id ← stoul v
            some (
              lib.dump (result_json (get_latest_result ambient.no_result (to_id id) service)),
              s',
            )
        ]
      ]
