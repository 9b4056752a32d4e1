-- ===== src/BowstringMaterial/Tests.antt =====
-- Two materials and an analyzer, and the theorems at them.
use ai_solo_coder_task_b.Prelude.{ℕ, ◌≡◌, ◌+◌, refl, true, false, [], ◌∷◌, length, arith}
use ai_solo_coder_task_b.Prelude.Int.{ℤ, pos, ltb_ℤ, ◌-ℤ◌}
use ai_solo_coder_task_b.Double.{IsNumber, clamp}
use ai_solo_coder_task_b.Double.Fixed.{fixed, fixed-IsOrdered}
use ai_solo_coder_task_b.Sensor.{CrossbowType}
use ai_solo_coder_task_b.BallisticSimulator.Tests.{fresh}
use ai_solo_coder_task_b.BowstringMaterial.Materials.{
  BowstringMaterial, MaterialDataPoint, hemp_base, silk_base,
}
use ai_solo_coder_task_b.BowstringMaterial.{linear_interpolate, interpolate_efficiency}
use ai_solo_coder_task_b.BowstringMaterial.Database.{add_experimental_dataset}
use ai_solo_coder_task_b.BowstringMaterial.Analyzer.{create}
use ai_solo_coder_task_b.BowstringMaterial.Accuracy.{
  Weights, candidate_score, optimize_material_for_accuracy,
}
use ai_solo_coder_task_b.BowstringMaterial.Best.{IsBest, optimize_material_for_accuracy-IsBest}
use ai_solo_coder_task_b.BowstringMaterial.Interpolation.{
  Interpolates, interpolate_efficiency-Interpolates,
}
use ai_solo_coder_task_b.BowstringMaterial.Data.{IsMeasured, add_experimental_dataset-IsMeasured}

abbrev m : ℕ → ℤ
m n = fixed.lit n 0

abbrev point : ℕ → ℕ → MaterialDataPoint ℤ
point tenths percent = record {
  pull_ratio = fixed.lit tenths 1;
  stress_pa = m tenths;
  strain = fixed.lit tenths 2;
  efficiency = fixed.lit percent 2;
  damping_factor = m 1;
  temperature_c = m 20;
  humidity = fixed.lit 5 1;
  sample_id = "n";
}

abbrev measured : BowstringMaterial ℤ
measured = record silk_base { experimental_data = point 2 50 ∷ point 4 70 ∷ point 8 60 ∷ [] }

halfway : interpolate_efficiency measured (fixed.lit 3 1) ≡ fixed.lit 60 2
unfolding interpolate_efficiency linear_interpolate
halfway = refl

interpolate_efficiency-Interpolates_example :
    Interpolates
      (λ q. q.pull_ratio)
      (clamp (fixed.lit 3 1) (m 0) (m 1))
      (λ q. q.efficiency)
      (fixed.lit 50 2)
      (point 2 50)
      (point 4 70 ∷ point 8 60 ∷ [])
      (interpolate_efficiency measured (fixed.lit 3 1))
interpolate_efficiency-Interpolates_example =
    interpolate_efficiency-Interpolates fixed-IsOrdered measured (fixed.lit 3 1) (point 2 50)
      (point 4 70 ∷ point 8 60 ∷ []) refl refl refl

less_or_greater : (x y : ℤ) → ltb_ℤ x y ≡ true → ltb_ℤ y x ≡ false
less_or_greater x y h = ground arith

abbrev hemp_string : BowstringMaterial ℤ
hemp_string = hemp_base

add_experimental_dataset-IsMeasured_example :
    IsMeasured (add_experimental_dataset hemp_string 3)
    × (length (add_experimental_dataset hemp_string 3).experimental_data
        ≡ length hemp_string.experimental_data + 3)
add_experimental_dataset-IsMeasured_example =
    add_experimental_dataset-IsMeasured less_or_greater hemp_string 3 tt

abbrev crossbow : CrossbowType ℤ
crossbow = record {
  id = 1;
  name = "n";
  dynasty = "d";
  draw_weight = m 80;
  bow_length = m 1;
  string_length = m 1;
  arrow_mass = m 1;
  effective_range = m 100;
  max_range = m 200;
}

abbrev weights : Weights ℤ
weights = record {
  target_accuracy_weight = fixed.lit 6 1;
  power_weight = fixed.lit 25 2;
  durability_weight = fixed.lit 15 2;
}

abbrev score : BowstringMaterial ℤ → ℤ
score = candidate_score fresh (create crossbow) weights (measured ∷ hemp_base ∷ [])

a_number : (x : ℤ) → IsNumber x
a_number x = ground arith

below : (x : ℤ) → ltb_ℤ (x -ℤ pos 1) x ≡ true
below x = ground arith

-- A value below the first score stands for the lowest double.
abbrev lowest : ℤ
lowest = score measured -ℤ pos 1

optimize_material_for_accuracy-IsBest_example :
    IsBest fixed-IsOrdered score
      (optimize_material_for_accuracy lowest fresh
        (create crossbow)
        weights
        (measured ∷ hemp_base ∷ []))
      (measured ∷ hemp_base ∷ [])
optimize_material_for_accuracy-IsBest_example =
    optimize_material_for_accuracy-IsBest fixed-IsOrdered lowest fresh (create crossbow) weights
      measured (hemp_base ∷ []) (a_number (score measured), (a_number (score hemp_base), tt))
      (below (score measured))
