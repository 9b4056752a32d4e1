-- ===== src/AccuracyAnalyzer/Tests.antt =====
-- Six shots, three of them near 100 m, and the theorem at them.
use ai_solo_coder_task_b.Prelude.{ℕ, ◌≡◌, refl, List, [], ◌∷◌, arith}
use ai_solo_coder_task_b.Prelude.Int.{ℤ}
use ai_solo_coder_task_b.Double.Fixed.{fixed}
use ai_solo_coder_task_b.Sensor.{SensorData}
use ai_solo_coder_task_b.AccuracyAnalyzer.{
  calculate_sight_adjustments, range_bins, calculate_mean, calculate_std,
}
use ai_solo_coder_task_b.AccuracyAnalyzer.Adjustments.{Adjusts, calculate_sight_adjustments-Adjusts}

abbrev m : ℕ → ℤ
m n = fixed.lit n 0

abbrev sample : ℕ → ℕ → SensorData ℤ
sample id distance = record {
  timestamp = 1;
  crossbow_id = id;
  crossbow_name = "n";
  bow_string_tension = m 1;
  bow_arm_deformation = m 1;
  arrow_velocity = m 1;
  range = m distance;
  spread_x = m 1;
  spread_y = m 3;
  aim_angle = m 1;
  temperature = m 1;
  humidity = m 1;
  wind_speed = m 1;
  wind_direction = m 1;
}

abbrev six : List (SensorData ℤ)
six = sample 1 90 ∷ sample 1 100 ∷ sample 1 110 ∷ sample 1 900 ∷ sample 1 190 ∷ sample 1 900 ∷ []

means : calculate_mean (m 1 ∷ m 4 ∷ []) ≡ fixed.lit 25 1
unfolding calculate_mean
means = refl

deviation : calculate_std (m 1 ∷ m 3 ∷ m 5 ∷ []) (m 3) ≡ m 2
unfolding calculate_std
deviation = refl

one_bin : calculate_sight_adjustments six ≡ (m 100, fixed.neg (m 2)) ∷ []
unfolding calculate_sight_adjustments
one_bin = refl

calculate_sight_adjustments-Adjusts_example :
    Adjusts six range_bins (calculate_sight_adjustments six)
calculate_sight_adjustments-Adjusts_example = calculate_sight_adjustments-Adjusts six (omega arith)
