-- ===== src/ClickHouseStorage/Tests.antt =====
-- Tests of the storage, and its theorems at a concrete table.
use ai_solo_coder_task_b.Prelude.{ℕ, ◌≡◌, refl, true, false, inl, List, [], ◌∷◌, ◌++◌, arith}
use ai_solo_coder_task_b.Sensor.{SensorData, Alert, ShotRecord, AccuracyAnalysis}
use ai_solo_coder_task_b.ClickHouseStorage.{
  ClickHouseStorage, create, append_row, filter_id, insert_sensor_data, insert_each,
  insert_sensor_batch, get_sensor_history,
}
use ai_solo_coder_task_b.ClickHouseStorage.Retention.{Keeps, insert_sensor_batch-Keeps}
use ai_solo_coder_task_b.ClickHouseStorage.Runs.{
  Call, sample, connect, batch, alert, shot, disconnect, analysis, run, all_answers, all_samples,
  all_alerts, all_types, last_link, IsStored, run-IsStored,
}

-- Measurements are numbers here.
abbrev row : ℕ → SensorData ℕ
row id = record {
  timestamp = 1;
  crossbow_id = id;
  crossbow_name = "";
  bow_string_tension = 0;
  bow_arm_deformation = 0;
  arrow_velocity = 0;
  range = 0;
  spread_x = 0;
  spread_y = 0;
  aim_angle = 0;
  temperature = 0;
  humidity = 0;
  wind_speed = 0;
  wind_direction = 0;
}

abbrev opened : ClickHouseStorage ℕ
opened = record { connected = true; crossbow_types = []; sensor_data = []; alerts = [] }

rows :
    get_sensor_history 7 24 (insert_sensor_batch (row 7 ∷ row 8 ∷ row 7 ∷ []) opened).1
    ≡ row 7 ∷ row 7 ∷ []
unfolding get_sensor_history filter_id insert_sensor_batch insert_each insert_sensor_data append_row
rows = refl

-- A small table: three rows at most, and two go at once.
trimmed : append_row {A = ℕ} 3 2 (1 ∷ 2 ∷ 3 ∷ []) 4 ≡ 3 ∷ 4 ∷ []
unfolding append_row
trimmed = refl

insert_sensor_batch-Keeps_example :
    let (ok, s') = insert_sensor_batch (row 7 ∷ []) opened in
    (ok ≡ true) × Keeps 50_000 10_000 (row 7 ∷ []) s'.sensor_data
insert_sensor_batch-Keeps_example = insert_sensor_batch-Keeps (row 7 ∷ []) [] opened refl (record {
  dropped = 0;
  in_range = omega arith;
  newest = refl;
  bounded = omega arith;
  enough = inl refl;
})

abbrev warning : Alert ℕ
warning = record {
  timestamp = 1;
  crossbow_id = 7;
  crossbow_name = "";
  alert_type = "HIGH_TEMPERATURE";
  severity = "WARNING";
  message = "";
  threshold_value = 60;
  actual_value = 61;
}

abbrev landed : ShotRecord ℕ
landed = record {
  timestamp = 1;
  crossbow_id = 7;
  shot_id = "";
  initial_velocity = 60;
  launch_angle = 15;
  max_height = 9;
  flight_time = 3;
  impact_point = record { x = 150; y = 0; z = 0 };
  impact_velocity = 50;
  kinetic_energy = 80;
}

abbrev made : AccuracyAnalysis ℕ
made = record {
  crossbow_id = 7;
  crossbow_name = "";
  analysis_date = 1;
  total_shots = 0;
  mean_spread_x = 0;
  mean_spread_y = 0;
  std_spread_x = 0;
  std_spread_y = 0;
  circular_error_probable = 0;
  mean_velocity = 0;
  std_velocity = 0;
  mean_range = 0;
  optimal_sight_scale = 0;
  sight_adjustments = [];
}

-- A sample before the connection, and a shot after it, are refused.
abbrev calls : List (Call ℕ)
calls =
    sample (row 7)
    ∷ connect
    ∷ batch (row 8 ∷ row 9 ∷ [])
    ∷ alert warning
    ∷ shot landed
    ∷ disconnect
    ∷ analysis made
    ∷ []

run-IsStored_example :
    let (answers, s') = run calls create in
    (answers ≡ all_answers calls false)
    × IsStored
        ([] ++ all_samples calls answers)
        ([] ++ all_alerts calls answers)
        ([] ++ all_types calls)
        (last_link calls false)
        s'
run-IsStored_example = run-IsStored calls [] [] [] false create (record {
  samples_kept = record {
    dropped = 0;
    in_range = omega arith;
    newest = refl;
    bounded = omega arith;
    enough = inl refl;
  };
  alerts_kept = record {
    dropped = 0;
    in_range = omega arith;
    newest = refl;
    bounded = omega arith;
    enough = inl refl;
  };
  types_kept = refl;
  linked = refl;
})

answered : all_answers calls false ≡ false ∷ true ∷ true ∷ true ∷ false ∷ true ∷ true ∷ []
answered = refl
