-- ===== src/HttpServer/Analysis.antt =====
-- An analysis on demand through backend/src/http_server.cpp: the service that makes it and the handlers that
-- report it.
use Prim.Native.String.{String}
use ai_solo_coder_task_b.Prelude.{ℕ, ◌≡◌, refl, ap, ◌∙◌, some, []}
use ai_solo_coder_task_b.Prelude.Map.{find_or, find_or-insert_self}
use ai_solo_coder_task_b.Prelude.Bytes.{Bytes, utf8}
use ai_solo_coder_task_b.Double.{Double}
use ai_solo_coder_task_b.Sensor.{AccuracyAnalysis}
use ai_solo_coder_task_b.AccuracyAnalyzer.{analyze}
use ai_solo_coder_task_b.AccuracyAnalyzerService.{
  AccuracyAnalyzerService, get_crossbow_data, get_latest_analysis, publish,
}
use ai_solo_coder_task_b.AccuracyAnalyzerService.Now.{run_analysis_now}
use ai_solo_coder_task_b.HttpServer.{HttpServer, Ambient, increment_http_requests, to_id}
use ai_solo_coder_task_b.HttpServer.Json.{Library}
use ai_solo_coder_task_b.HttpServer.Replies.{analysis_json}
use ai_solo_coder_task_b.HttpServer.Request.{Params, param, stoul}
use ai_solo_coder_task_b.HttpServer.Handlers.{
  handle_get_accuracy, handle_run_accuracy_analysis, first_name,
}

module _ {W : Type 0} ⦃d : Double W⦄ where
  -- What is published is what is latest.
  get_latest_analysis-now :
      (default : AccuracyAnalysis W) (now id : ℕ) (name : String)
      (others : AccuracyAnalyzerService W → AccuracyAnalyzerService W)
      (s : AccuracyAnalyzerService W)
      → get_latest_analysis default id (run_analysis_now now id name others s).1
        ≡ analyze id name now (find_or id s.crossbow_data [])
  unfolding get_latest_analysis run_analysis_now publish
  get_latest_analysis-now default now id name others s = find_or-insert_self id _ default _

  -- The analysis of all that the service holds of the crossbow when it is made, and the service with it.
  abbrev pub analysis_now : Ambient W → ℕ → AccuracyAnalyzerService W → AccuracyAnalysis W
  analysis_now ambient id a =
      analyze id (first_name (get_crossbow_data id 5000 a)) ambient.now
        (find_or id (ambient.before_analysis a).crossbow_data [])

  abbrev pub analysed : Ambient W → ℕ → AccuracyAnalyzerService W → AccuracyAnalyzerService W
  analysed ambient id a =
      (run_analysis_now ambient.now id (first_name (get_crossbow_data id 5000 a))
        ambient.during_analysis (ambient.before_analysis a)).1

  -- The analysis of the crossbow is still the latest when the other threads have had their turn.
  abbrev pub IsLatest : Ambient W → ℕ → AccuracyAnalyzerService W → Type 0
  IsLatest ambient id a =
      get_latest_analysis ambient.no_analysis id (ambient.after_analysis (analysed ambient id a))
      ≡ get_latest_analysis ambient.no_analysis id (analysed ambient id a)

module _ {W S : Type 0} ⦃d : Double W⦄ (lib : Library W) (ambient : Ambient W) where
  -- The server with this analyzer running.
  abbrev pub with : AccuracyAnalyzerService W → HttpServer W S → HttpServer W S
  with a s = record s { accuracy = some a }

  handle_get_accuracy-held :
      (params : Params) (v : Bytes) (n : ℕ) (a : AccuracyAnalyzerService W) (s : HttpServer W S)
      → param (utf8 "crossbow_id") params ≡ some v
      → stoul v ≡ some n
      → handle_get_accuracy lib ambient params (with a s)
        ≡ some (
          lib.dump (analysis_json (get_latest_analysis ambient.no_analysis (to_id n) a)),
          increment_http_requests "/api/accuracy" (with a s),
        )
  unfolding handle_get_accuracy
  handle_get_accuracy-held params v n a s given number =
      rw (given, handle_get_accuracy) (rw (number, handle_get_accuracy) refl)

  -- The server that a request for an analysis leaves: it is counted under both routes.
  abbrev pub requested : ℕ → AccuracyAnalyzerService W → HttpServer W S → HttpServer W S
  requested id a s = increment_http_requests "/api/accuracy" (
      with (ambient.after_analysis (analysed ambient id a))
        (increment_http_requests "/api/run-analysis" s))

  -- The accuracy as it is answered when the analysis has been made.
  answered :
      (params : Params) (v : Bytes) (n : ℕ) (a : AccuracyAnalyzerService W) (s : HttpServer W S)
      → param (utf8 "crossbow_id") params ≡ some v
      → stoul v ≡ some n
      → IsLatest ambient (to_id n) a
      → let left = with (ambient.after_analysis (analysed ambient (to_id n) a)) s in
        handle_get_accuracy lib ambient params left
        ≡ some (
          lib.dump (analysis_json (analysis_now ambient (to_id n) a)),
          increment_http_requests "/api/accuracy" left,
        )
  answered params v n a s given number latest =
      let left = with (ambient.after_analysis (analysed ambient (to_id n) a)) s in
      handle_get_accuracy-held params v n (ambient.after_analysis (analysed ambient (to_id n) a)) s
        given number
      ∙ ap (λ r. some (lib.dump (analysis_json r), increment_http_requests "/api/accuracy" left))
          (latest
            ∙ get_latest_analysis-now ambient.no_analysis ambient.now (to_id n)
                (first_name (get_crossbow_data (to_id n) 5000 a)) ambient.during_analysis
                (ambient.before_analysis a))

  -- Whatever the other threads do to the service before and during the analysis, where they store none of
  -- the crossbow after it: a request for an analysis, with a number for the crossbow, answers with the analysis of the samples that the
  -- service holds of the crossbow when it is made, named as its first sample was when the request came; and
  -- in the state that it leaves, a request for the accuracy of the crossbow is answered with the same body
  -- and changes nothing but its count. The first request is counted under both routes.
  pub handle_run_accuracy_analysis-published :
      (params again : Params) (v w : Bytes) (n : ℕ) (a : AccuracyAnalyzerService W)
      (s : HttpServer W S)
      → param (utf8 "crossbow_id") params ≡ some v
      → stoul v ≡ some n
      → param (utf8 "crossbow_id") again ≡ some w
      → stoul w ≡ some n
      → IsLatest ambient (to_id n) a
      → (handle_run_accuracy_analysis lib ambient params (with a s)
          ≡ some (
            lib.dump (analysis_json (analysis_now ambient (to_id n) a)),
            requested (to_id n) a s,
          ))
        × (handle_get_accuracy lib ambient again (requested (to_id n) a s)
            ≡ some (
              lib.dump (analysis_json (analysis_now ambient (to_id n) a)),
              increment_http_requests "/api/accuracy" (requested (to_id n) a s),
            ))
  unfolding handle_run_accuracy_analysis increment_http_requests
  handle_run_accuracy_analysis-published params again v w n a s given number given' number' latest =
      let counted = increment_http_requests "/api/run-analysis" s in
      (
        rw (given, handle_run_accuracy_analysis)
            (rw (number, handle_run_accuracy_analysis)
              (answered params v n a counted given number latest)),
        answered again w n a (increment_http_requests "/api/accuracy" counted) given' number'
            latest,
      )
