-- ===== src/AccuracyAnalyzerService/System.antt =====
-- The threads of the service, interleaved in any order: the worker, the periodic analysis, and calls of
-- `run_analysis_now`. Each move is one critical section, or the step between two.
use Prim.Native.String.{String}
use ai_solo_coder_task_b.Prelude.{ℕ, ◌≡◌, true, List, [], ◌∷◌, ◌++◌}
use ai_solo_coder_task_b.Prelude.Closure.{Closure}
use ai_solo_coder_task_b.Prelude.Map.{find_or}
use ai_solo_coder_task_b.Double.{Double}
use ai_solo_coder_task_b.Sensor.{SensorData}
use ai_solo_coder_task_b.Metrics.{increment_accuracy_processed}
use ai_solo_coder_task_b.AccuracyAnalyzer.{analyze}
use ai_solo_coder_task_b.AccuracyAnalyzerService.{
  AccuracyAnalyzerService, collect, ready_ids, touch_data, touch_name, publish, stop,
}

-- A crossbow whose samples were copied and are being analysed.
pub record Task (W : Type 0) : Type 0 where
  pub id : ℕ
  pub name : String
  pub shots : List (SensorData W)

-- Where `periodic_analysis_loop` stands.
pub data Periodic (W : Type 0) : Type 0 where
  asleep : Periodic W
  todo : List ℕ → Periodic W
  analysing : Task W → List ℕ → Periodic W

-- The service, its periodic thread, the calls of `run_analysis_now` that copied their samples, and
-- all samples that the worker took so far.
pub record System (W : Type 0) : Type 0 where
  pub service : AccuracyAnalyzerService W
  pub periodic : Periodic W
  pub calls : List (Task W)
  pub history : List (SensorData W)

module _ {W : Type 0} ⦃d : Double W⦄ where
  abbrev pub result : ℕ → Task W → AccuracyAnalyzerService W → AccuracyAnalyzerService W
  result now t s = publish t.id (analyze t.id t.name now t.shots) s

  abbrev pub copy_of : ℕ → String → AccuracyAnalyzerService W → Task W
  copy_of id name s = record { id = id; name = name; shots = find_or id s.crossbow_data [] }

  pub data Step (s : System W) : System W → Type 0 where
    receive :
        (sample : SensorData W)
        → Step s
            (record s { service = collect sample s.service; history = s.history ++ (sample ∷ []) })
    wake :
        s.periodic ≡ asleep
        → s.service.running ≡ true
        → Step s (record s { periodic = todo (ready_ids s.service.crossbow_data) })
    copy :
        (id : ℕ) (ids : List ℕ)
        → s.periodic ≡ todo (id ∷ ids)
        → Step s (record s {
          service = touch_data id (touch_name id s.service);
          periodic = analysing (copy_of id (find_or id s.service.crossbow_names "") s.service) ids;
        })
    store :
        (now : ℕ) (t : Task W) (ids : List ℕ)
        → s.periodic ≡ analysing t ids
        → Step s (record s { service = result now t s.service; periodic = todo ids })
    sleep :
        s.periodic ≡ todo []
        → Step s (record s {
          service = record s.service { metrics = increment_accuracy_processed s.service.metrics };
          periodic = asleep;
        })
    halt : Step s (record s { service = stop s.service })
    call :
        (id : ℕ) (name : String)
        → Step s (record s {
          service = touch_data id s.service;
          calls = copy_of id name s.service ∷ s.calls;
        })
    answer :
        (now : ℕ) (before : List (Task W)) (t : Task W) (after : List (Task W))
        → s.calls ≡ before ++ (t ∷ after)
        → Step s (record s { service = result now t s.service; calls = before ++ after })

  -- What the threads can lead to.
  abbrev pub Reach : System W → System W → Type 0
  Reach = Closure Step
