-- ===== src/StringComparator/Optimum.antt =====
-- The recommendation and the curve of backend/src/modules/string_comparator.cpp. `print` stands for a stream with
-- `std::fixed` and a precision.
use Prim.Native.String.{String, ◌++◌ as append}
use ai_solo_coder_task_b.Prelude.{ℕ, zero, suc, ◌-◌, List, [], ◌∷◌}
use ai_solo_coder_task_b.Prelude.Int.{ℤ, pos, negsuc}
use ai_solo_coder_task_b.Double.{Double, ◌⊗◌, ◌⊘◌, of_size}
use ai_solo_coder_task_b.BowstringMaterial.Materials.{BowstringMaterialType, unknown}
use ai_solo_coder_task_b.BowstringMaterial.{interpolate_efficiency}
use ai_solo_coder_task_b.BowstringMaterial.Database.{get}
use ai_solo_coder_task_b.BowstringMaterial.Analyzer.{all_types}
use ai_solo_coder_task_b.BowstringMaterial.Curves.{points_from}
use ai_solo_coder_task_b.StringComparator.{
  StringComparisonMetric, StringOptimizationResult, StringComparisonConfig, compare_materials,
}

abbrev concat : List String → String
concat [] = ""
concat (s ∷ rest) = append s (concat rest)

abbrev pub candidates_or_all : List BowstringMaterialType → List BowstringMaterialType
candidates_or_all [] = all_types
candidates_or_all (t ∷ types) = t ∷ types

-- `std::max(2, num_points)`.
abbrev points : ℤ → ℕ
points (pos zero) = 2
points (pos (suc zero)) = 2
points (pos n) = n
points (negsuc n) = 2

module _ {W : Type 0} ⦃d : Double W⦄ where
  open d use {lit}

  unfoldable pub recommend : (ℕ → W → String) → StringComparisonMetric W → String
  recommend print best = concat (
      "Recommended material: "
      ∷ best.name
      ∷ " (overall score: "
      ∷ print 3 best.overall_score
      ∷ "). Efficiency: "
      ∷ print 2 (best.energy_efficiency ⊗ lit 100 0)
      ∷ "%, Velocity: "
      ∷ print 1 best.estimated_velocity_ms
      ∷ " m/s, Estimated lifespan: "
      ∷ print 0 best.fatigue_life_cycles
      ∷ " cycles."
      ∷ [])

  unfoldable pub best_of :
      (ℕ → W → String) → List (StringComparisonMetric W) → StringOptimizationResult W
  unfolding recommend get
  best_of print [] = record {
    best_material = get unknown;
    best_score = lit 0 0;
    rankings = [];
    recommendation = "No valid materials found for comparison.";
  }
  best_of print (best ∷ rest) = record {
    best_material = get best.material_type;
    best_score = best.overall_score;
    rankings = best ∷ rest;
    recommendation = recommend print best;
  }

  unfoldable pub find_optimal_material :
      (ℕ → W → String)
      → StringComparisonConfig W
      → List BowstringMaterialType
      → StringOptimizationResult W
  unfolding compare_materials best_of
  find_optimal_material print config candidates =
      best_of print (compare_materials config (candidates_or_all candidates))

  unfoldable pub generate_efficiency_curve : BowstringMaterialType → ℤ → List (W × W)
  unfolding get interpolate_efficiency points_from
  generate_efficiency_curve t num_points =
      let n = points num_points in
      points_from
        (λ i.
          let pull_ratio = of_size i ⊘ of_size (n - 1) in
          (pull_ratio, interpolate_efficiency (get t) pull_ratio))
        0 n
