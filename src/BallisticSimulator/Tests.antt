-- ===== src/BallisticSimulator/Tests.antt =====
-- Three samples of two crossbows, and the theorem of the recent samples at them.
use ai_solo_coder_task_b.Prelude.{
  ℕ, ◌≤◌, ◌≡◌, refl, true, List, [], ◌∷◌, ◌++◌, arith, length, keep_last,
}
use ai_solo_coder_task_b.Prelude.Int.{ℤ}
use ai_solo_coder_task_b.Prelude.Map.{insert, find, find_or}
use ai_solo_coder_task_b.Double.Fixed.{fixed}
use ai_solo_coder_task_b.Sensor.{SensorData, ShotRecord}
use ai_solo_coder_task_b.Sensor.History.{of_crossbow}
use ai_solo_coder_task_b.Metrics.{start}
use ai_solo_coder_task_b.BallisticSimulator.{
  BallisticSimulator, BallisticResult, work, work_all, trim_recent, get_trajectory_points,
}
use ai_solo_coder_task_b.BallisticSimulator.Recent.{recent, get_trajectory_points-work_all}

abbrev m : ℕ → ℤ
m n = fixed.lit n 0

abbrev pub sample : ℕ → ℕ → SensorData ℤ
sample time id = record {
  timestamp = time;
  crossbow_id = id;
  crossbow_name = "n";
  bow_string_tension = m 1;
  bow_arm_deformation = m 1;
  arrow_velocity = m 1;
  range = m 1;
  spread_x = m 1;
  spread_y = m 1;
  aim_angle = m 1;
  temperature = m 1;
  humidity = m 1;
  wind_speed = m 1;
  wind_direction = m 1;
}

abbrev pub fresh : ShotRecord ℤ
fresh = record {
  timestamp = 0;
  crossbow_id = 0;
  shot_id = "s";
  initial_velocity = m 0;
  launch_angle = m 0;
  max_height = m 0;
  flight_time = m 0;
  impact_point = record { x = m 0; y = m 0; z = m 0 };
  impact_velocity = m 0;
  kinetic_energy = m 0;
}

abbrev pub blank : BallisticResult ℤ
blank = record {
  source_data = sample 0 0;
  shot_record = fresh;
  full_trajectory = [];
  launch_phase_contact_time_ms = m 0;
  max_launch_acceleration_g = m 0;
  mach_number_at_launch = m 0;
  drag_coefficient_at_launch = m 0;
  dynamics_version = "2.0_penalty_mach";
}

abbrev pub idle : BallisticSimulator ℤ
idle = record {
  input_queue = record { capacity = 2; running = true; queue = [] };
  crossbow_types = [];
  running = true;
  processed_count = 0;
  error_count = 0;
  latest_results = [];
  recent_trajectories = [];
  metrics = start;
}

abbrev taken : List (SensorData ℤ)
taken = sample 1 7 ∷ sample 2 8 ∷ sample 3 7 ∷ []

newest : get_trajectory_points 7 1 (work_all blank fresh taken idle) ≡ sample 3 7 ∷ []
unfolding get_trajectory_points work trim_recent insert find find_or
newest = refl

idle_room : length (recent 7 idle) ≤ 1000
unfolding find_or find
idle_room = omega arith

get_trajectory_points-work_all_example :
    get_trajectory_points 7 2 (work_all blank fresh taken idle)
    ≡ keep_last 2 (keep_last 1000 (recent 7 idle ++ of_crossbow 7 taken))
get_trajectory_points-work_all_example =
    get_trajectory_points-work_all blank fresh 7 2 taken idle idle_room
