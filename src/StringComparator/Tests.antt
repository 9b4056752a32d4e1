-- ===== src/StringComparator/Tests.antt =====
-- Two candidates, and the theorems at them.
use Prim.Native.String.{String}
use ai_solo_coder_task_b.Prelude.{ℕ, ◌≡◌, true, false, List, [], ◌∷◌, arith}
use ai_solo_coder_task_b.Prelude.Int.{ℤ, ltb_ℤ}
use ai_solo_coder_task_b.Double.Fixed.{fixed}
use ai_solo_coder_task_b.BowstringMaterial.Materials.{BowstringMaterialType, silk, custom, hemp}
use ai_solo_coder_task_b.StringComparator.{default_config, scored, evaluate_all}
use ai_solo_coder_task_b.StringComparator.Optimum.{find_optimal_material}
use ai_solo_coder_task_b.StringComparator.Ranking.{IsRanking, find_optimal_material-IsRanking}

less_or_greater : (x y : ℤ) → ltb_ℤ x y ≡ true → ltb_ℤ y x ≡ false
less_or_greater x y h = ground arith

abbrev two_kinds : List BowstringMaterialType
two_kinds = silk ∷ custom ∷ hemp ∷ []

abbrev print : ℕ → ℤ → String
print precision x = "x"

find_optimal_material-IsRanking_example :
    IsRanking
      (scored default_config (evaluate_all default_config two_kinds))
      (find_optimal_material print default_config two_kinds).rankings
find_optimal_material-IsRanking_example =
    find_optimal_material-IsRanking less_or_greater print default_config two_kinds
