-- ===== src/HttpServer/Replies.antt =====
-- What backend/src/http_server.cpp writes of each record into a reply, and the points of a trajectory that it keeps.
use Prim.Native.String.{String}
use ai_solo_coder_task_b.Prelude.{ℕ, zero, suc, ◌-◌, ◌/◌, max, List, [], ◌∷◌, ◌++◌, map, length}
use ai_solo_coder_task_b.Prelude.Loop.{decimal}
use ai_solo_coder_task_b.Prelude.Map.{Map}
use ai_solo_coder_task_b.Double.{Double, ◌⊕◌, ◌⊗◌}
use ai_solo_coder_task_b.Sensor.{
  SensorData, CrossbowType, Alert, AccuracyAnalysis, Vec3, TrajectoryPoint,
}
use ai_solo_coder_task_b.BallisticSimulator.{BallisticResult}
use ai_solo_coder_task_b.HttpServer.Json.{Json, text, num, array, object, nat, Library}

-- The elements at 0, step, 2 * step and so on: `left` elements are to be passed over.
unfoldable pub every_from : {A : Type 0} → ℕ → ℕ → List A → List A
every_from step left [] = []
every_from step zero (x ∷ xs) = x ∷ every_from step (step - 1) xs
every_from step (suc left) (x ∷ xs) = every_from step left xs

abbrev pub last_one : {A : Type 0} → List A → List A
last_one [] = []
last_one (x ∷ []) = x ∷ []
last_one (x ∷ y ∷ xs) = last_one (y ∷ xs)

-- The points of a trajectory in a reply: at most about 200 and, once more, the last.
unfoldable pub sampled : {A : Type 0} → List A → List A
unfolding every_from
sampled points = every_from (max 1 (length points / 200)) 0 points ++ last_one points

module _ {W : Type 0} where
  unfoldable pub crossbow_json : CrossbowType W → Json W
  crossbow_json t = object (
      ("id", nat t.id)
      ∷ ("name", text t.name)
      ∷ ("dynasty", text t.dynasty)
      ∷ ("draw_weight", num t.draw_weight)
      ∷ ("bow_length", num t.bow_length)
      ∷ ("string_length", num t.string_length)
      ∷ ("arrow_mass", num t.arrow_mass)
      ∷ ("effective_range", num t.effective_range)
      ∷ ("max_range", num t.max_range)
      ∷ [])

  unfoldable pub sample_json : Library W → SensorData W → Json W
  sample_json lib x = object (
      ("timestamp", text (lib.format_timestamp x.timestamp))
      ∷ ("crossbow_id", nat x.crossbow_id)
      ∷ ("crossbow_name", text x.crossbow_name)
      ∷ ("bow_string_tension", num x.bow_string_tension)
      ∷ ("bow_arm_deformation", num x.bow_arm_deformation)
      ∷ ("arrow_velocity", num x.arrow_velocity)
      ∷ ("range", num x.range)
      ∷ ("spread_x", num x.spread_x)
      ∷ ("spread_y", num x.spread_y)
      ∷ ("aim_angle", num x.aim_angle)
      ∷ ("temperature", num x.temperature)
      ∷ ("humidity", num x.humidity)
      ∷ ("wind_speed", num x.wind_speed)
      ∷ ("wind_direction", num x.wind_direction)
      ∷ [])

  unfoldable pub alert_json : Library W → Alert W → Json W
  alert_json lib a = object (
      ("timestamp", text (lib.format_timestamp a.timestamp))
      ∷ ("crossbow_id", nat a.crossbow_id)
      ∷ ("crossbow_name", text a.crossbow_name)
      ∷ ("alert_type", text a.alert_type)
      ∷ ("severity", text a.severity)
      ∷ ("message", text a.message)
      ∷ ("threshold_value", num a.threshold_value)
      ∷ ("actual_value", num a.actual_value)
      ∷ [])

  unfoldable pub analysis_json : AccuracyAnalysis W → Json W
  analysis_json a = object (
      ("crossbow_id", nat a.crossbow_id)
      ∷ ("crossbow_name", text a.crossbow_name)
      ∷ ("total_shots", nat a.total_shots)
      ∷ ("mean_spread_x", num a.mean_spread_x)
      ∷ ("mean_spread_y", num a.mean_spread_y)
      ∷ ("std_spread_x", num a.std_spread_x)
      ∷ ("std_spread_y", num a.std_spread_y)
      ∷ ("circular_error_probable", num a.circular_error_probable)
      ∷ ("mean_velocity", num a.mean_velocity)
      ∷ ("std_velocity", num a.std_velocity)
      ∷ ("mean_range", num a.mean_range)
      ∷ ("optimal_sight_scale", num a.optimal_sight_scale)
      ∷ (
        "sight_adjustments",
        array (
            map (λ adj. object (("range", num adj.0) ∷ ("adjustment", num adj.1) ∷ []))
              a.sight_adjustments),
      )
      ∷ [])

  abbrev vec_json : Vec3 W → Json W
  vec_json v = object (("x", num v.x) ∷ ("y", num v.y) ∷ ("z", num v.z) ∷ [])

  unfoldable pub point_json : TrajectoryPoint W → Json W
  point_json p = object (
      ("t", num p.time_step)
      ∷ ("x", num p.position.x)
      ∷ ("y", num p.position.y)
      ∷ ("z", num p.position.z)
      ∷ ("vx", num p.velocity.x)
      ∷ ("vy", num p.velocity.y)
      ∷ ("vz", num p.velocity.z)
      ∷ [])

  unfoldable pub shot_json : BallisticResult W → Json W
  unfolding point_json sampled
  shot_json r = object (
      ("shot_id", text r.shot_record.shot_id)
      ∷ ("initial_velocity", num r.shot_record.initial_velocity)
      ∷ ("launch_angle", num r.shot_record.launch_angle)
      ∷ ("max_height", num r.shot_record.max_height)
      ∷ ("flight_time", num r.shot_record.flight_time)
      ∷ ("impact_point", vec_json r.shot_record.impact_point)
      ∷ ("impact_velocity", num r.shot_record.impact_velocity)
      ∷ ("kinetic_energy", num r.shot_record.kinetic_energy)
      ∷ ("trajectory", array (map point_json (sampled r.full_trajectory)))
      ∷ ("mach_number", num r.mach_number_at_launch)
      ∷ ("drag_coefficient", num r.drag_coefficient_at_launch)
      ∷ ("contact_phase_time_ms", num r.launch_phase_contact_time_ms)
      ∷ ("max_launch_acceleration_g", num r.max_launch_acceleration_g)
      ∷ ("dynamics_version", text r.dynamics_version)
      ∷ [])

  unfoldable pub result_json : BallisticResult W → Json W
  result_json r = object (
      ("initial_velocity", num r.shot_record.initial_velocity)
      ∷ ("range", num r.source_data.range)
      ∷ ("mach_number", num r.mach_number_at_launch)
      ∷ ("drag_coefficient", num r.drag_coefficient_at_launch)
      ∷ ("max_launch_acceleration_g", num r.max_launch_acceleration_g)
      ∷ ("contact_phase_time_ms", num r.launch_phase_contact_time_ms)
      ∷ ("dynamics_version", text r.dynamics_version)
      ∷ [])

  abbrev pub results_by_id : Map (BallisticResult W) → List (String × Json W)
  results_by_id [] = []
  results_by_id ((id, r) ∷ rest) = (decimal id, result_json r) ∷ results_by_id rest

  unfoldable pub shot_row : ⦃d : Double W⦄ → Library W → SensorData W → Json W
  shot_row ⦃d⦄ lib x = object (
      ("timestamp", text (lib.format_timestamp x.timestamp))
      ∷ ("crossbow_id", nat x.crossbow_id)
      ∷ ("crossbow_name", text x.crossbow_name)
      ∷ ("velocity", num x.arrow_velocity)
      ∷ ("range", num x.range)
      ∷ ("aim_angle", num x.aim_angle)
      ∷ ("spread", num (d.sqrt (x.spread_x ⊗ x.spread_x ⊕ x.spread_y ⊗ x.spread_y)))
      ∷ [])
