-- ===== src/DynamicsModel/Tests.antt =====
-- The theorems of the model at a concrete crossbow.
use ai_solo_coder_task_b.Prelude.{ℕ, ◌≡◌, refl, true, List, [], ◌∷◌, All}
use ai_solo_coder_task_b.Prelude.Int.{ℤ}
use ai_solo_coder_task_b.Double.Fixed.{fixed, fixed-IsOrdered}
use ai_solo_coder_task_b.Sensor.{TrajectoryPoint, CrossbowType, ShotRecord}
use ai_solo_coder_task_b.DynamicsModel.Forces.{vec3}
use ai_solo_coder_task_b.DynamicsModel.Flight.{
  Ended, simulate_trajectory, max_steps, simulate_trajectory-Ended,
}
use ai_solo_coder_task_b.DynamicsModel.Results.{
  highest, calculate_shot_results, IsUnder, calculate_shot_results-max_height,
}

abbrev m : ℕ → ℤ
m n = fixed.lit n 0

abbrev crossbow : CrossbowType ℤ
crossbow = record {
  id = 1;
  name = "n";
  dynasty = "d";
  draw_weight = m 80;
  bow_length = m 1;
  string_length = m 1;
  arrow_mass = m 1;
  effective_range = m 100;
  max_range = m 200;
}

abbrev point : ℕ → ℕ → TrajectoryPoint ℤ
point t y = record {
  time_step = m t;
  position = vec3 (m t) (m y) (m 0);
  velocity = vec3 (m 1) (m 0) (m 0);
  acceleration = vec3 (m 0) (m 0) (m 0);
  drag_force = m 0;
  lift_force = m 0;
}

abbrev blank : ShotRecord ℤ
blank = record {
  timestamp = 0;
  crossbow_id = 1;
  shot_id = "s";
  initial_velocity = m 0;
  launch_angle = m 0;
  max_height = m 0;
  flight_time = m 0;
  impact_point = vec3 (m 0) (m 0) (m 0);
  impact_velocity = m 0;
  kinetic_energy = m 0;
}

abbrev arc : List (TrajectoryPoint ℤ)
arc = point 0 1 ∷ point 1 3 ∷ point 2 2 ∷ []

top : (calculate_shot_results crossbow blank arc).max_height ≡ m 3
unfolding calculate_shot_results highest
top = refl

calculate_shot_results-max_height_example :
    let h = (calculate_shot_results crossbow blank arc).max_height in
    (fixed.le (m 0) h ≡ true) × All (IsUnder h) arc
calculate_shot_results-max_height_example =
    calculate_shot_results-max_height fixed-IsOrdered crossbow blank arc (refl, (refl, (refl, tt)))

simulate_trajectory-Ended_example :
    Ended max_steps (simulate_trajectory crossbow (m 60) (m 45) (m 0) (m 0) (fixed.lit 1 3))
simulate_trajectory-Ended_example =
    simulate_trajectory-Ended crossbow (m 60) (m 45) (m 0) (m 0) (fixed.lit 1 3)
