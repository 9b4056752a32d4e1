-- ===== src/StringComparator/Ranking.antt =====
-- The order in which backend/src/modules/string_comparator.cpp gives the materials.
use Prim.Native.String.{String}
use mathlib.Core.List.{Perm}
use ai_solo_coder_task_b.Prelude.{ℕ, ◌≡◌, refl, subst, sym, true, false, List, [], ◌∷◌}
use ai_solo_coder_task_b.Prelude.Sorting.{InOrder, sort-InOrder, sort-Perm}
use ai_solo_coder_task_b.Double.{Double}
use ai_solo_coder_task_b.BowstringMaterial.Materials.{BowstringMaterialType}
use ai_solo_coder_task_b.StringComparator.{
  StringComparisonConfig, StringComparisonMetric, evaluate_all, scored, ranks_before,
  compare_materials,
}
use ai_solo_coder_task_b.StringComparator.Optimum.{
  best_of, candidates_or_all, find_optimal_material,
}

module _ {W : Type 0} ⦃d : Double W⦄ where
  open d use {lt}

  rankings-best_of :
      (print : ℕ → W → String) (ranked : List (StringComparisonMetric W))
      → (best_of print ranked).rankings ≡ ranked
  unfolding best_of
  rankings-best_of print [] = refl
  rankings-best_of print (best ∷ rest) = refl

  -- The materials in the rank order.
  abbrev pub IsRanking : List (StringComparisonMetric W) → List (StringComparisonMetric W) → Type 0
  IsRanking metrics ranked = Perm ranked metrics × InOrder ranks_before ranked

  compare_materials-IsRanking :
      ((x y : W) → lt x y ≡ true → lt y x ≡ false)
      → (config : StringComparisonConfig W) (types : List BowstringMaterialType)
      → IsRanking (scored config (evaluate_all config types)) (compare_materials config types)
  unfolding compare_materials
  compare_materials-IsRanking asym config types =
      let metrics = scored config (evaluate_all config types) in
      (
        sort-Perm ranks_before metrics,
        sort-InOrder ranks_before (λ a b. asym b.overall_score a.overall_score) metrics,
      )

  -- The ranking holds each candidate of the database once, with its score, and no one with a greater score
  -- than the one in front of it. Without candidates it is one of all four materials. A number that is
  -- less than another is not greater.
  pub find_optimal_material-IsRanking :
      ((x y : W) → lt x y ≡ true → lt y x ≡ false)
      → (print : ℕ → W → String) (config : StringComparisonConfig W)
        (candidates : List BowstringMaterialType)
      → IsRanking
          (scored config (evaluate_all config (candidates_or_all candidates)))
          (find_optimal_material print config candidates).rankings
  unfolding find_optimal_material
  find_optimal_material-IsRanking asym print config candidates =
      let types = candidates_or_all candidates in
      subst (IsRanking (scored config (evaluate_all config types)))
        (sym (rankings-best_of print (compare_materials config types)))
        (compare_materials-IsRanking asym config types)
