-- ===== src/AccuracyAnalyzerService/Tests.antt =====
-- A service that takes two samples and analyses a crossbow on demand, and the theorems at its run.
use ai_solo_coder_task_b.Prelude.{ℕ, ◌≡◌, ◌++◌, refl, true, [], ◌∷◌, keep_last}
use ai_solo_coder_task_b.Prelude.Int.{ℤ}
use ai_solo_coder_task_b.Prelude.Map.{find, find_or}
use ai_solo_coder_task_b.Prelude.Closure.{here, next}
use ai_solo_coder_task_b.Double.Fixed.{fixed}
use ai_solo_coder_task_b.Sensor.{SensorData}
use ai_solo_coder_task_b.Sensor.History.{window}
use ai_solo_coder_task_b.Metrics.{start}
use ai_solo_coder_task_b.AccuracyAnalyzerService.{
  AccuracyAnalyzerService, get_crossbow_data, collect,
}
use ai_solo_coder_task_b.AccuracyAnalyzerService.System.{System, asleep, Reach, receive}
use ai_solo_coder_task_b.AccuracyAnalyzerService.Past.{IsConsistent}
use ai_solo_coder_task_b.AccuracyAnalyzerService.Steps.{Reach-IsConsistent, get_crossbow_data-Reach}

abbrev m : ℕ → ℤ
m n = fixed.lit n 0

abbrev pub sample : ℕ → ℕ → SensorData ℤ
sample id distance = record {
  timestamp = 1;
  crossbow_id = id;
  crossbow_name = "n";
  bow_string_tension = m 1;
  bow_arm_deformation = m 1;
  arrow_velocity = m 1;
  range = m distance;
  spread_x = m 1;
  spread_y = m 3;
  aim_angle = m 1;
  temperature = m 1;
  humidity = m 1;
  wind_speed = m 1;
  wind_direction = m 1;
}

abbrev pub fresh : AccuracyAnalyzerService ℤ
fresh = record {
  input_queue = record { capacity = 2; running = true; queue = [] };
  running = true;
  received_count = 0;
  analysis_count = 0;
  crossbow_data = [];
  crossbow_names = [];
  latest_analyses = [];
  metrics = start;
}

abbrev begin : System ℤ
begin = record { service = fresh; periodic = asleep; calls = []; history = [] }

begin-IsConsistent : IsConsistent begin
unfolding find find_or
begin-IsConsistent = record {
  sorted = tt;
  windows = λ id. refl;
  on_track = tt;
  calls = tt;
  analyses = λ id a f. cc;
}

abbrev after_receive : SensorData ℤ → System ℤ → System ℤ
after_receive x s = record s { service = collect x s.service; history = s.history ++ (x ∷ []) }

abbrev two : System ℤ
two = after_receive (sample 7 100) (after_receive (sample 8 90) begin)

run : Reach begin two
run = next (next here (receive (sample 8 90))) (receive (sample 7 100))

Reach-IsConsistent_example : IsConsistent two
Reach-IsConsistent_example = Reach-IsConsistent begin-IsConsistent run

get_crossbow_data-Reach_example :
    get_crossbow_data 7 3 two.service ≡ keep_last 3 (window 5000 7 two.history)
get_crossbow_data-Reach_example = get_crossbow_data-Reach 7 3 begin-IsConsistent run
