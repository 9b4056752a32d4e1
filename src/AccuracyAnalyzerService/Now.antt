-- ===== src/AccuracyAnalyzerService/Now.antt =====
-- `run_analysis_now` of backend/src/accuracy_analyzer_service.cpp; `others` is what the other threads do to the
-- service between its two critical sections.
use Prim.Native.String.{String}
use ai_solo_coder_task_b.Prelude.{ℕ, []}
use ai_solo_coder_task_b.Prelude.Map.{find_or}
use ai_solo_coder_task_b.Double.{Double}
use ai_solo_coder_task_b.Sensor.{AccuracyAnalysis}
use ai_solo_coder_task_b.AccuracyAnalyzer.{analyze}
use ai_solo_coder_task_b.AccuracyAnalyzerService.{AccuracyAnalyzerService, touch_data, publish}

module _ {W : Type 0} ⦃d : Double W⦄ where
  unfoldable pub run_analysis_now :
      ℕ
      → ℕ
      → String
      → (AccuracyAnalyzerService W → AccuracyAnalyzerService W)
      → AccuracyAnalyzerService W
      → AccuracyAnalysis W × AccuracyAnalyzerService W
  unfolding find_or analyze publish touch_data
  run_analysis_now now id name others s =
      let analysis = analyze id name now (find_or id s.crossbow_data []) in
      (analysis, publish id analysis (others (touch_data id s)))
