-- ===== src/BowstringMaterial/Data.antt =====
-- The measured points of a material of backend/src/bowstring_material.cpp, as the database makes them.
use ai_solo_coder_task_b.Prelude.{
  ℕ, zero, suc, ◌+◌, ◌≡◌, true, false, [], ◌∷◌, ◌++◌, length, length-append, arith,
}
use ai_solo_coder_task_b.Prelude.Sorting.{InOrder, sort-InOrder, length-sort}
use ai_solo_coder_task_b.Double.{Double}
use ai_solo_coder_task_b.BowstringMaterial.Materials.{BowstringMaterial, MaterialDataPoint}
use ai_solo_coder_task_b.BowstringMaterial.{add_experimental_point}
use ai_solo_coder_task_b.BowstringMaterial.Database.{
  data_point, add_points, add_experimental_dataset,
}

module _ {W : Type 0} ⦃d : Double W⦄ where
  open d use {lt}

  -- The points stand in the order of their pull.
  abbrev pub IsMeasured : BowstringMaterial W → Type 0
  IsMeasured mat = InOrder (λ a b. lt a.pull_ratio b.pull_ratio) mat.experimental_data

  module _ (asym : (x y : W) → lt x y ≡ true → lt y x ≡ false) where
    pub add_experimental_point-IsMeasured :
        (point : MaterialDataPoint W) (mat : BowstringMaterial W)
        → IsMeasured (add_experimental_point point mat)
    unfolding add_experimental_point
    add_experimental_point-IsMeasured point mat =
        sort-InOrder (λ a b. lt a.pull_ratio b.pull_ratio) (λ a b. asym a.pull_ratio b.pull_ratio)
          (mat.experimental_data ++ (point ∷ []))

    add_points-IsMeasured :
        (num_points i left : ℕ) (mat : BowstringMaterial W)
        → IsMeasured mat
        → IsMeasured (add_points num_points i left mat)
    unfolding add_points
    add_points-IsMeasured num_points i zero mat h = h
    add_points-IsMeasured num_points i (suc left) mat h =
        add_points-IsMeasured num_points (i + 1) left
          (add_experimental_point (data_point mat num_points i) mat)
          (add_experimental_point-IsMeasured (data_point mat num_points i) mat)

  length-add_points :
      (num_points i left : ℕ) (mat : BowstringMaterial W)
      → length (add_points num_points i left mat).experimental_data
        ≡ length mat.experimental_data + left
  unfolding add_points add_experimental_point
  length-add_points num_points i zero mat = omega arith
  length-add_points num_points i (suc left) mat =
      let point = data_point mat num_points i in
      omega (
        arith,
        length-add_points num_points (i + 1) left (add_experimental_point point mat),
        length-sort (λ a b. lt a.pull_ratio b.pull_ratio) (mat.experimental_data ++ (point ∷ [])),
        length-append mat.experimental_data (point ∷ []),
      )

  -- A data set adds its number of points to those of the material, and all stand in the order of their pull,
  -- where those before it do. A number that is less than another is not greater.
  pub add_experimental_dataset-IsMeasured :
      ((x y : W) → lt x y ≡ true → lt y x ≡ false)
      → (mat : BowstringMaterial W) (num_points : ℕ) → IsMeasured mat
      → IsMeasured (add_experimental_dataset mat num_points)
        × (length (add_experimental_dataset mat num_points).experimental_data
            ≡ length mat.experimental_data + num_points)
  unfolding add_experimental_dataset
  add_experimental_dataset-IsMeasured asym mat num_points h = (
    add_points-IsMeasured asym num_points 0 num_points mat h,
    length-add_points num_points 0 num_points mat,
  )
