-- ===== src/HttpServer.antt =====
-- backend/src/http_server.cpp: the server's members, the response, and what every handler shares. The parsing
-- of a request is in Request, the handlers in Handlers, the choice of one in Routes. A handler is a
-- function of the parameters and the server; `none` is an exception, which nothing catches.
pub mod Request
pub mod Parameters
pub mod Json
pub mod Replies
pub mod Handlers
pub mod Bowstrings
pub mod Formations
pub mod Material
pub mod Routes
pub mod Points
pub mod Exceptions
pub mod Reads
pub mod Analysis
mod Tests
use Prim.Native.String.{String}
use text.Mathlib.Text.{◌==◌ as ◌=ₛ◌}
use ai_solo_coder_task_b.Prelude.{
  ℕ, ◌%◌, ◌^◌, Bool, true, false, Option, none, some, List, [], ◌∷◌, ◌++◌, if◌then◌else◌, length,
}
use ai_solo_coder_task_b.Prelude.Int.{ℤ, pos, negsuc}
use ai_solo_coder_task_b.Prelude.Map.{Map}
use ai_solo_coder_task_b.Prelude.Loop.{decimal}
use ai_solo_coder_task_b.Prelude.Bytes.{Bytes, utf8}
use ai_solo_coder_task_b.Sensor.{SensorData, CrossbowType, ShotRecord, AccuracyAnalysis}
use ai_solo_coder_task_b.Metrics.{increment}
use ai_solo_coder_task_b.ClickHouseStorage.{ClickHouseStorage}
use ai_solo_coder_task_b.BallisticSimulator.{BallisticSimulator, BallisticResult}
use ai_solo_coder_task_b.AccuracyAnalyzerService.{AccuracyAnalyzerService}
use ai_solo_coder_task_b.AlarmMqttService.{AlarmMqttService}
use ai_solo_coder_task_b.HttpServer.Request.{Params, param, stoul, stoi}
use ai_solo_coder_task_b.HttpServer.Json.{Library}

-- The services as they stand when the request is handled, and the requests counted by `Metrics`.
pub record HttpServer (W S : Type 0) : Type 0 where
  pub port : ℤ
  pub storage : ClickHouseStorage W
  pub ballistic : Option (BallisticSimulator W)
  pub accuracy : Option (AccuracyAnalyzerService W)
  pub alarm : Option (AlarmMqttService W S)
  pub crossbow_types : Option (Map (CrossbowType W))
  pub running : Bool
  pub server_fd : ℤ
  pub http_requests : List (String × ℕ)

-- The values that a call meets outside the server: the storage's built-in types, what records hold that
-- are declared and not set, the value-initialised analysis, the clock, the lowest finite double, and what
-- the other threads do to the accuracy service before, during and after the `run_analysis_now` of a handler.
pub record Ambient (W : Type 0) : Type 0 where
  pub built_in : List (CrossbowType W)
  pub blank : BallisticResult W
  pub fresh : ShotRecord W
  pub fresh_sample : SensorData W
  pub no_analysis : AccuracyAnalysis W
  pub no_result : BallisticResult W
  pub now : ℕ
  pub lowest : W
  pub before_analysis : AccuracyAnalyzerService W → AccuracyAnalyzerService W
  pub during_analysis : AccuracyAnalyzerService W → AccuracyAnalyzerService W
  pub after_analysis : AccuracyAnalyzerService W → AccuracyAnalyzerService W

-- `http_requests_[endpoint]++`.
unfoldable pub count_endpoint : String → List (String × ℕ) → List (String × ℕ)
count_endpoint endpoint [] = (endpoint, 1) ∷ []
count_endpoint endpoint ((e, n) ∷ counts) =
    if e =ₛ endpoint then (e, increment n) ∷ counts else (e, n) ∷ count_endpoint endpoint counts

module _ {W S : Type 0} where
  unfoldable pub increment_http_requests : String → HttpServer W S → HttpServer W S
  unfolding count_endpoint
  increment_http_requests endpoint s = record s {
    http_requests = count_endpoint endpoint s.http_requests;
  }

  unfoldable pub stop : HttpServer W S → HttpServer W S
  stop s = elim s.server_fd [
    | pos fd ↦ record s { running = false; server_fd = negsuc 0 }
    | negsuc n ↦ record s { running = false }
  ]

abbrev pub crlf : Bytes
crlf = 13 ∷ 10 ∷ []

-- Each line with its end.
abbrev lines : List Bytes → Bytes
lines [] = []
lines (line ∷ rest) = line ++ (crlf ++ lines rest)

-- The lines in front of a body, and the body.
unfoldable pub build_response : Bytes → Bytes
unfolding decimal
build_response body =
    lines (
      utf8 "HTTP/1.1 200 OK"
      ∷ utf8 "Content-Type: application/json; charset=utf-8"
      ∷ utf8 "Access-Control-Allow-Origin: *"
      ∷ utf8 "Access-Control-Allow-Methods: GET, POST, OPTIONS"
      ∷ utf8 "Access-Control-Allow-Headers: Content-Type"
      ∷ (utf8 "Content-Length: " ++ utf8 (decimal (length body)))
      ∷ utf8 "Connection: close"
      ∷ [])
    ++ (crlf ++ body)

-- A parameter that may be left out.
unfoldable pub size_or : String → ℕ → Params → Option ℕ
unfolding param stoul
size_or key default params = elim (param (utf8 key) params) [
  | none ↦ some default
  | some v ↦ stoul v
]

unfoldable pub int_or : String → ℤ → Params → Option ℤ
unfolding param stoi
int_or key default params = elim (param (utf8 key) params) [ none ↦ some default | some v ↦ stoi v ]

unfoldable pub double_or : {W : Type 0} → Library W → String → W → Params → Option W
unfolding param
double_or lib key default params = elim (param (utf8 key) params) [
  | none ↦ some default
  | some v ↦ lib.stod v
]

-- The conversion to `uint32_t`.
abbrev pub to_id : ℕ → ℕ
to_id n = n % 2 ^ 32
