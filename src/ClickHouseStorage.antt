-- ===== src/ClickHouseStorage.antt =====
-- backend/src/clickhouse_storage.cpp: the storage keeps its rows in memory. The log lines, and the rows
-- that are only logged, are not modelled; the built-in crossbow types are a parameter.
pub mod Retention
pub mod Runs
mod Tests
use ai_solo_coder_task_b.Prelude.{
  ℕ, Bool, true, false, ◌||◌, not, List, [], ◌∷◌, ◌++◌, ltb, ◌==◌, if◌then◌else◌, length, drop,
}
use ai_solo_coder_task_b.Sensor.{
  SensorData, CrossbowType, Alert, ShotRecord, AccuracyAnalysis, TrajectoryPoint,
}

pub record ClickHouseStorage (W : Type 0) : Type 0 where
  pub connected : Bool
  pub crossbow_types : List (CrossbowType W)
  pub sensor_data : List (SensorData W)
  pub alerts : List (Alert W)

-- The constructor, as far as it matters to the rows.
abbrev pub create : {W : Type 0} → ClickHouseStorage W
create = record { connected = false; crossbow_types = []; sensor_data = []; alerts = [] }

-- `push_back`, then the oldest `batch` rows go if there are more than `limit`.
pub append_row : {A : Type 0} → ℕ → ℕ → List A → A → List A
append_row limit batch rows row =
    let all = rows ++ (row ∷ []) in if ltb limit (length all) then drop batch all else all

-- The rows of one crossbow, or all of them for 0. The number of hours is not looked at.
pub filter_id : {W : Type 0} → ℕ → List (SensorData W) → List (SensorData W)
filter_id id [] = []
filter_id id (x ∷ xs) =
    let rest = filter_id id xs in if x.crossbow_id == id || id == 0 then x ∷ rest else rest

module _ {W : Type 0} where
  pub connect : ClickHouseStorage W → Bool × ClickHouseStorage W
  connect s = (true, record s { connected = true })

  pub disconnect : ClickHouseStorage W → ClickHouseStorage W
  disconnect s = record s { connected = false }

  pub is_connected : ClickHouseStorage W → Bool
  is_connected s = s.connected

  pub insert_crossbow_type : CrossbowType W → ClickHouseStorage W → Bool × ClickHouseStorage W
  insert_crossbow_type type s =
      (true, record s { crossbow_types = s.crossbow_types ++ (type ∷ []) })

  unfoldable pub insert_sensor_data :
      SensorData W → ClickHouseStorage W → Bool × ClickHouseStorage W
  insert_sensor_data sample s =
      if not s.connected
      then (false, s)
      else (true, record s { sensor_data = append_row 50_000 10_000 s.sensor_data sample })

  -- The loop of `insert_sensor_batch`.
  pub insert_each : List (SensorData W) → ClickHouseStorage W → ClickHouseStorage W
  insert_each [] s = s
  insert_each (sample ∷ batch) s = insert_each batch (insert_sensor_data sample s).1

  pub insert_sensor_batch : List (SensorData W) → ClickHouseStorage W → Bool × ClickHouseStorage W
  insert_sensor_batch batch s = if not s.connected then (false, s) else (true, insert_each batch s)

  unfoldable pub insert_alert : Alert W → ClickHouseStorage W → Bool × ClickHouseStorage W
  insert_alert alert s =
      if not s.connected
      then (false, s)
      else (true, record s { alerts = append_row 1000 500 s.alerts alert })

  -- The three calls that only log: the row, and `true`, while there is no connection.
  pub insert_trajectory_data :
      ℕ → List (TrajectoryPoint W) → ClickHouseStorage W → Bool × ClickHouseStorage W
  insert_trajectory_data id trajectory s = if not s.connected then (true, s) else (false, s)

  pub insert_shot_record : ShotRecord W → ClickHouseStorage W → Bool × ClickHouseStorage W
  insert_shot_record shot s = if not s.connected then (true, s) else (false, s)

  pub insert_accuracy_analysis :
      AccuracyAnalysis W → ClickHouseStorage W → Bool × ClickHouseStorage W
  insert_accuracy_analysis analysis s = if not s.connected then (true, s) else (false, s)

  pub get_sensor_history : ℕ → ℕ → ClickHouseStorage W → List (SensorData W)
  unfolding filter_id
  get_sensor_history id hours s = filter_id id s.sensor_data

  pub get_shot_history : ℕ → ℕ → ClickHouseStorage W → List (ShotRecord W)
  get_shot_history id limit s = []

  pub get_active_alerts : ClickHouseStorage W → List (Alert W)
  get_active_alerts s = s.alerts

  -- The registered types, or `built_in` while none is.
  unfoldable pub get_crossbow_types :
      List (CrossbowType W) → ClickHouseStorage W → List (CrossbowType W)
  get_crossbow_types built_in s = elim s.crossbow_types [ [] ↦ built_in | t ∷ types ↦ t ∷ types ]
