-- ===== src/AccuracyAnalyzerService.antt =====
-- backend/src/accuracy_analyzer_service.cpp: the window of samples by crossbow, the thread that analyses
-- them at intervals, and the analyses asked for. A critical section is one function.
pub mod System
pub mod Past
pub mod Steps
pub mod Now
pub mod Tests
use Prim.Native.String.{String}
use ai_solo_coder_task_b.Prelude.{
  ℕ, ◌-◌, Bool, true, false, Option, none, some, List, [], ◌∷◌, ◌++◌, ltb, leb, if◌then◌else◌,
  length, drop,
}
use ai_solo_coder_task_b.Prelude.Map.{Map, find, find_or, insert}
use ai_solo_coder_task_b.Double.{Double}
use ai_solo_coder_task_b.Sensor.{SensorData, AccuracyAnalysis}
use ai_solo_coder_task_b.MessageQueue.{MessageQueue, WaitResult, blocked, returned, wait_pop}
use ai_solo_coder_task_b.MessageQueue
use ai_solo_coder_task_b.Metrics.{Metrics, increment, increment_accuracy_processed}

-- The members that the threads share.
pub record AccuracyAnalyzerService (W : Type 0) : Type 0 where
  pub input_queue : MessageQueue (SensorData W)
  pub running : Bool
  pub received_count : ℕ
  pub analysis_count : ℕ
  pub crossbow_data : Map (List (SensorData W))
  pub crossbow_names : Map String
  pub latest_analyses : Map (AccuracyAnalysis W)
  pub metrics : Metrics

-- `erase` of all but the newest 5000.
unfoldable pub trim_data : {A : Type 0} → List A → List A
trim_data xs = if ltb 5000 (length xs) then drop (length xs - 5000) xs else xs

module _ {W : Type 0} where
  -- What `worker_loop` does with a sample.
  unfoldable pub collect : SensorData W → AccuracyAnalyzerService W → AccuracyAnalyzerService W
  collect sample s =
      let id = sample.crossbow_id in
      record s {
        crossbow_data =
            insert id (trim_data (find_or id s.crossbow_data [] ++ (sample ∷ []))) s.crossbow_data;
        crossbow_names = insert id sample.crossbow_name s.crossbow_names;
        received_count = increment s.received_count;
      }

  -- One round of `worker_loop`: `none` while it sleeps.
  unfoldable pub worker_round :
      Bool → AccuracyAnalyzerService W → Option (AccuracyAnalyzerService W)
  worker_round timed_out s = elim (wait_pop timed_out s.input_queue) [
    | blocked ↦ none
    | returned none rest ↦ some (record s { input_queue = rest })
    | returned (some sample) rest ↦ some (collect sample (record s { input_queue = rest }))
  ]

  -- The crossbows with at least 10 samples.
  unfoldable pub ready_ids : Map (List (SensorData W)) → List ℕ
  ready_ids [] = []
  ready_ids ((id, shots) ∷ m) =
      let rest = ready_ids m in if leb 10 (length shots) then id ∷ rest else rest

  -- `crossbow_data_[id]` and `crossbow_names_[id]`, which make the entry if there is none.
  unfoldable pub touch_data : ℕ → AccuracyAnalyzerService W → AccuracyAnalyzerService W
  touch_data id s = record s {
    crossbow_data = insert id (find_or id s.crossbow_data []) s.crossbow_data;
  }

  unfoldable pub touch_name : ℕ → AccuracyAnalyzerService W → AccuracyAnalyzerService W
  touch_name id s = record s {
    crossbow_names = insert id (find_or id s.crossbow_names "") s.crossbow_names;
  }

  -- An analysis is stored and counted.
  unfoldable pub publish :
      ℕ → AccuracyAnalysis W → AccuracyAnalyzerService W → AccuracyAnalyzerService W
  publish id analysis s = record s {
    latest_analyses = insert id analysis s.latest_analyses;
    analysis_count = increment s.analysis_count;
  }

  unfoldable pub stop : AccuracyAnalyzerService W → AccuracyAnalyzerService W
  stop s = record s { running = false; input_queue = MessageQueue.stop s.input_queue }

  -- `default` is the value-initialised analysis.
  unfoldable pub get_latest_analysis :
      AccuracyAnalysis W → ℕ → AccuracyAnalyzerService W → AccuracyAnalysis W
  get_latest_analysis default id s = find_or id s.latest_analyses default

  unfoldable pub get_crossbow_data : ℕ → ℕ → AccuracyAnalyzerService W → List (SensorData W)
  get_crossbow_data id max_points s = elim (find id s.crossbow_data) [
    | none ↦ []
    | some shots ↦
        drop (if ltb max_points (length shots) then length shots - max_points else 0) shots
  ]
