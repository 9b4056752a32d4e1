-- ===== src/HttpServer/Exceptions.antt =====
-- What an exception of `std::stoul` does to the server of backend/src/http_server.cpp.
use Prim.Native.String.{String}
use ai_solo_coder_task_b.Prelude.{ℕ, ◌≡◌, refl, ap, none, some, ◌>>=◌, List, ◌∷◌}
use ai_solo_coder_task_b.Prelude.Bytes.{Bytes, utf8}
use ai_solo_coder_task_b.Double.{Double}
use ai_solo_coder_task_b.BallisticSimulator.{BallisticSimulator}
use ai_solo_coder_task_b.AccuracyAnalyzerService.{AccuracyAnalyzerService}
use ai_solo_coder_task_b.UdpReceiver.{fill_buffer, c_string}
use ai_solo_coder_task_b.HttpServer.{HttpServer, Ambient, increment_http_requests}
use ai_solo_coder_task_b.HttpServer.Replies.{sample_json, shot_row}
use ai_solo_coder_task_b.Sensor.{SensorData}
use ai_solo_coder_task_b.HttpServer.Json.{Json, Library}
use ai_solo_coder_task_b.HttpServer.Request.{Params, param, stoul, get_path, parse_url_params}
use ai_solo_coder_task_b.HttpServer.Handlers.{
  reply_samples, handle_get_sensor_data, handle_get_shot_history, handle_get_accuracy,
  handle_simulate_shot, handle_run_accuracy_analysis,
}
use ai_solo_coder_task_b.HttpServer.Routes.{
  Table, routes, dispatch, respond, serve_client, serve_all, request_room,
}

-- The routes that convert the identifier of a crossbow wherever there is one.
pub data Converts : String → Type 0 where
  sensor_data : Converts "/api/sensor-data"
  shot_history : Converts "/api/shot-history"
  accuracy : Converts "/api/accuracy"
  simulate_shot : Converts "/api/simulate-shot"
  run_analysis : Converts "/api/run-analysis"

module _ {W S : Type 0} ⦃d : Double W⦄ (lib : Library W) (ambient : Ambient W) where
  module _ (params : Params) (v : Bytes) (s : HttpServer W S)
      (given : param (utf8 "crossbow_id") params ≡ some v) (faulty : stoul v ≡ none) where
    reply_samples-uncaught :
        (json : SensorData W → Json W) (default : ℕ) (a : AccuracyAnalyzerService W)
        → s.accuracy ≡ some a
        → reply_samples lib ambient json default params s ≡ none
    unfolding reply_samples
    reply_samples-uncaught json default a p =
        rw (given, reply_samples) (rw (p, reply_samples) (rw (faulty, reply_samples) refl))

    handle_get_accuracy-uncaught :
        (a : AccuracyAnalyzerService W)
        → s.accuracy ≡ some a
        → handle_get_accuracy lib ambient params s ≡ none
    unfolding handle_get_accuracy
    handle_get_accuracy-uncaught a p =
        rw (given, handle_get_accuracy)
          (rw (p, handle_get_accuracy) (rw (faulty, handle_get_accuracy) refl))

    handle_run_accuracy_analysis-uncaught :
        (a : AccuracyAnalyzerService W)
        → s.accuracy ≡ some a
        → handle_run_accuracy_analysis lib ambient params s ≡ none
    unfolding handle_run_accuracy_analysis
    handle_run_accuracy_analysis-uncaught a p =
        rw (given, handle_run_accuracy_analysis)
          (rw (p, handle_run_accuracy_analysis) (rw (faulty, handle_run_accuracy_analysis) refl))

    handle_simulate_shot-uncaught :
        (b : BallisticSimulator W)
        → s.ballistic ≡ some b
        → handle_simulate_shot lib ambient params s ≡ none
    unfolding handle_simulate_shot
    handle_simulate_shot-uncaught b p =
        rw (given, handle_simulate_shot)
          (rw (p, handle_simulate_shot) (rw (faulty, handle_simulate_shot) refl))

  dispatch-uncaught :
      (features : Table W S) (route : String) (params : Params) (v : Bytes) (s : HttpServer W S)
      (a : AccuracyAnalyzerService W) (b : BallisticSimulator W)
      → Converts route
      → param (utf8 "crossbow_id") params ≡ some v
      → stoul v ≡ none
      → s.accuracy ≡ some a
      → s.ballistic ≡ some b
      → dispatch (routes lib ambient features) (utf8 route) params s ≡ none
  unfolding dispatch handle_get_sensor_data handle_get_shot_history
  dispatch-uncaught features route params v s a b sensor_data given faulty p q =
      ap (λ r. r >>= (λ body. some (body, increment_http_requests "/api/sensor-data" s)))
        (reply_samples-uncaught params v s given faulty (sample_json lib) 100 a p)
  dispatch-uncaught features route params v s a b shot_history given faulty p q =
      ap (λ r. r >>= (λ body. some (body, increment_http_requests "/api/shot-history" s)))
        (reply_samples-uncaught params v s given faulty (shot_row lib) 50 a p)
  dispatch-uncaught features route params v s a b accuracy given faulty p q =
      handle_get_accuracy-uncaught params v s given faulty a p
  dispatch-uncaught features route params v s a b simulate_shot given faulty p q =
      handle_simulate_shot-uncaught params v s given faulty b q
  dispatch-uncaught features route params v s a b run_analysis given faulty p q =
      handle_run_accuracy_analysis-uncaught params v s given faulty a p

  serve_client-received :
      (features : Table W S) (bytes : Bytes) (b : ℕ) (rest : Bytes) (s : HttpServer W S)
      → fill_buffer request_room bytes ≡ b ∷ rest
      → serve_client lib ambient features bytes s
        ≡ respond lib ambient features (c_string (b ∷ rest)) s
  unfolding serve_client
  serve_client-received features bytes b rest s h = rw (h, serve_client) refl

  respond-uncaught :
      (features : Table W S) (route : String) (request v : Bytes) (s : HttpServer W S)
      (a : AccuracyAnalyzerService W) (b : BallisticSimulator W)
      → Converts route
      → get_path request ≡ utf8 route
      → param (utf8 "crossbow_id") (parse_url_params request) ≡ some v
      → stoul v ≡ none
      → s.accuracy ≡ some a
      → s.ballistic ≡ some b
      → respond lib ambient features request s ≡ none
  unfolding respond
  respond-uncaught features route request v s a b converts path given faulty p q =
      rw (path, respond)
        (rw
          (
            dispatch-uncaught features route (parse_url_params request) v s a b converts given
                faulty p q,
            respond,
          )
          refl)

  -- One request for a route that converts the identifier, with an identifier that does not start like a
  -- number, while the services run: the exception leaves its thread, and the run gives nothing, whatever
  -- the other clients ask.
  pub serve_all-uncaught :
      (features : Table W S) (route : String) (bytes : Bytes) (c : ℕ) (rest : Bytes)
      (after : List Bytes) (v : Bytes) (s : HttpServer W S) (a : AccuracyAnalyzerService W)
      (b : BallisticSimulator W)
      → Converts route
      → fill_buffer request_room bytes ≡ c ∷ rest
      → get_path (c_string (c ∷ rest)) ≡ utf8 route
      → param (utf8 "crossbow_id") (parse_url_params (c_string (c ∷ rest))) ≡ some v
      → stoul v ≡ none
      → s.accuracy ≡ some a
      → s.ballistic ≡ some b
      → serve_all lib ambient features (bytes ∷ after) s ≡ none
  unfolding serve_all
  serve_all-uncaught features route bytes c rest after v s a b converts read path given faulty p q =
      rw
        (
          serve_client-received features bytes c rest s read,
          respond-uncaught features route (c_string (c ∷ rest)) v s a b converts path given faulty p
              q,
          serve_all,
        )
        refl
