-- ===== src/BallisticSimulator.antt =====
-- backend/src/ballistic_simulator.cpp: the simulation of each sample, the latest result and the recent
-- samples of each crossbow. `blank` and `fresh` are a result and a record as declared, with what their
-- members happen to hold before they are set.
pub mod Recent
pub mod Tests
use Prim.Native.String.{String}
use ai_solo_coder_task_b.Prelude.{
  ℕ, ◌-◌, Bool, true, false, Option, none, some, List, [], ◌∷◌, ◌++◌, ltb, if◌then◌else◌, length,
  drop, keep_last,
}
use ai_solo_coder_task_b.Prelude.Map.{Map, find, find_or, insert}
use ai_solo_coder_task_b.Double.{Double, ◌⊗◌, ◌⊘◌}
use ai_solo_coder_task_b.Sensor.{SensorData, ShotRecord, TrajectoryPoint, CrossbowType}
use ai_solo_coder_task_b.MessageQueue.{
  MessageQueue, wait_pop, WaitResult, blocked, returned, stop as stop_queue,
}
use ai_solo_coder_task_b.Metrics.{Metrics, increment, increment_ballistic_processed}
use ai_solo_coder_task_b.AlarmMqttService.{find_crossbow}
use ai_solo_coder_task_b.DynamicsModel.Forces.{
  zero_w, gravity, sound_speed, calculate_drag_coefficient,
}
use ai_solo_coder_task_b.DynamicsModel.Launch.{simulate_launch_phase}
use ai_solo_coder_task_b.DynamicsModel.Flight.{simulate_trajectory}
use ai_solo_coder_task_b.DynamicsModel.Results.{calculate_shot_results}

pub record BallisticResult (W : Type 0) : Type 0 where
  pub source_data : SensorData W
  pub shot_record : ShotRecord W
  pub full_trajectory : List (TrajectoryPoint W)
  pub launch_phase_contact_time_ms : W
  pub max_launch_acceleration_g : W
  pub mach_number_at_launch : W
  pub drag_coefficient_at_launch : W
  pub dynamics_version : String

-- The members that the workers share.
pub record BallisticSimulator (W : Type 0) : Type 0 where
  pub input_queue : MessageQueue (SensorData W)
  pub crossbow_types : List (CrossbowType W)
  pub running : Bool
  pub processed_count : ℕ
  pub error_count : ℕ
  pub latest_results : Map (BallisticResult W)
  pub recent_trajectories : Map (List (SensorData W))
  pub metrics : Metrics

-- `if (traj.size() > 1000) traj.erase(traj.begin())`.
unfoldable pub trim_recent : {A : Type 0} → List A → List A
trim_recent xs = if ltb 1000 (length xs) then drop 1 xs else xs

module _ {W : Type 0} ⦃d : Double W⦄ (blank : BallisticResult W) (fresh : ShotRecord W) where
  open d use {lit}

  unfoldable pub process_sensor_data : List (CrossbowType W) → SensorData W → BallisticResult W
  process_sensor_data types sample = elim (find_crossbow sample.crossbow_id types) [
    | none ↦ record blank {
      source_data = sample;
      mach_number_at_launch = zero_w;
      drag_coefficient_at_launch = zero_w;
      launch_phase_contact_time_ms = zero_w;
      max_launch_acceleration_g = zero_w;
    }
    | some cb ↦
        let launch =
          simulate_launch_phase cb cb.draw_weight (cb.bow_length ⊗ lit 6 1) sample.aim_angle
            (lit 1 4) in
        let trajectory =
          simulate_trajectory cb launch.initial_velocity sample.aim_angle sample.wind_speed
            sample.wind_direction (lit 1 3) in
        let mach = launch.initial_velocity ⊘ sound_speed in
        record blank {
          source_data = sample;
          shot_record = calculate_shot_results cb fresh trajectory;
          full_trajectory = trajectory;
          launch_phase_contact_time_ms = launch.contact_phase_time ⊗ lit 1000 0;
          max_launch_acceleration_g = launch.max_string_acceleration ⊘ gravity;
          mach_number_at_launch = mach;
          drag_coefficient_at_launch = calculate_drag_coefficient mach;
        }
  ]

  -- What `worker_loop` does with a sample.
  unfoldable pub work : SensorData W → BallisticSimulator W → BallisticSimulator W
  work sample s =
      let id = sample.crossbow_id in
      record s {
        latest_results = insert id (process_sensor_data s.crossbow_types sample) s.latest_results;
        recent_trajectories =
            insert id (trim_recent (find_or id s.recent_trajectories [] ++ (sample ∷ [])))
              s.recent_trajectories;
        processed_count = increment s.processed_count;
        metrics = increment_ballistic_processed s.metrics;
      }

  -- The samples that the workers take, in the order in which they take the result's mutex.
  abbrev pub work_all : List (SensorData W) → BallisticSimulator W → BallisticSimulator W
  work_all [] s = s
  work_all (x ∷ xs) s = work_all xs (work x s)

  -- One round of `worker_loop`: `none` while it sleeps.
  unfoldable pub worker_round : Bool → BallisticSimulator W → Option (BallisticSimulator W)
  worker_round timed_out s = elim (wait_pop timed_out s.input_queue) [
    | blocked ↦ none
    | returned none rest ↦ some (record s { input_queue = rest })
    | returned (some sample) rest ↦ some (work sample (record s { input_queue = rest }))
  ]

  abbrev name_or_empty : Option (CrossbowType W) → String
  name_or_empty none = ""
  name_or_empty (some cb) = cb.name

  -- `fresh_sample` is the `SensorData` as declared, with the time it is given.
  unfoldable pub simulate_shot :
      SensorData W → ℕ → W → W → W → BallisticSimulator W → BallisticResult W × BallisticSimulator W
  simulate_shot fresh_sample crossbow_id angle wind_speed wind_direction s =
      let sample = record fresh_sample {
        crossbow_id = crossbow_id;
        aim_angle = angle;
        wind_speed = wind_speed;
        wind_direction = wind_direction;
        crossbow_name = name_or_empty (find_crossbow crossbow_id s.crossbow_types);
      } in
      let result = process_sensor_data s.crossbow_types sample in
      (
        result,
        record s {
          latest_results = insert crossbow_id result s.latest_results;
          processed_count = increment s.processed_count;
        },
      )

module _ {W : Type 0} where
  unfoldable pub stop : BallisticSimulator W → BallisticSimulator W
  stop s = record s { running = false; input_queue = stop_queue s.input_queue }

  unfoldable pub get_latest_result :
      BallisticResult W → ℕ → BallisticSimulator W → BallisticResult W
  get_latest_result default id s = find_or id s.latest_results default

  unfoldable pub get_trajectory_points : ℕ → ℕ → BallisticSimulator W → List (SensorData W)
  get_trajectory_points id max_points s = elim (find id s.recent_trajectories) [
    | none ↦ []
    | some samples ↦
        drop (if ltb max_points (length samples) then length samples - max_points else 0) samples
  ]
