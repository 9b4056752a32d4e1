-- ===== src/BowstringMaterial/Curves.antt =====
-- The curves of backend/src/bowstring_material.cpp, over the pull and over the days. A number of points below 0
-- makes `reserve` throw, which is `none`.
use ai_solo_coder_task_b.Prelude.{ℕ, zero, suc, ◌+◌, ◌-◌, max, Option, none, some, List, [], ◌∷◌}
use ai_solo_coder_task_b.Prelude.Int.{ℤ, pos, negsuc}
use ai_solo_coder_task_b.Double.{Double, ◌⊕◌, ◌⊖◌, ◌⊗◌, ◌⊘◌, of_size}
use ai_solo_coder_task_b.Double.{max as max_w}
use ai_solo_coder_task_b.BowstringMaterial.Materials.{BowstringMaterial}
use ai_solo_coder_task_b.BowstringMaterial.{calculate_efficiency_at_pull}

module _ {W : Type 0} where
  -- The points of a loop: the rounds from `i` on, `left` of them.
  unfoldable pub points_from : (ℕ → W × W) → ℕ → ℕ → List (W × W)
  points_from point i zero = []
  points_from point i (suc left) = point i ∷ points_from point (i + 1) left

module _ {W : Type 0} ⦃d : Double W⦄ where
  open d use {lit}

  unfoldable pub calculate_efficiency_curve :
      BowstringMaterial W → W → W → ℤ → Option (List (W × W))
  unfolding calculate_efficiency_at_pull points_from
  calculate_efficiency_curve material min_pull_ratio max_pull_ratio samples = elim samples [
    | negsuc n ↦ none
    | pos n ↦
        let step = (max_pull_ratio ⊖ min_pull_ratio) ⊘ of_size (max 1 (n - 1)) in
        some (
          points_from
            (λ i.
              let pull_ratio = min_pull_ratio ⊕ of_size i ⊗ step in
              (pull_ratio, calculate_efficiency_at_pull material pull_ratio))
            0 n)
  ]

  -- What is left of the efficiency on a day.
  unfoldable pub efficiency_decay : BowstringMaterial W → W → W → ℕ → W
  efficiency_decay material cycles_per_day avg_humidity day =
      let humidity_factor =
        lit 1 0 ⊕ material.moisture_sensitivity ⊗ max_w (lit 0 0) (avg_humidity ⊖ lit 4 1) in
      let elapsed_cycles = cycles_per_day ⊗ of_size day ⊗ humidity_factor in
      let remaining_ratio =
        max_w (lit 0 0) (lit 1 0 ⊖ elapsed_cycles ⊘ material.fatigue_life_cycles) in
      lit 1 0 ⊖ lit 25 2 ⊗ (lit 1 0 ⊖ remaining_ratio)

  unfoldable pub calculate_lifespan_curve : BowstringMaterial W → ℤ → W → W → Option (List (W × W))
  unfolding efficiency_decay points_from
  calculate_lifespan_curve material max_days cycles_per_day avg_humidity = elim max_days [
    | negsuc n ↦ none
    | pos n ↦ some (
        points_from
          (λ day. (of_size day, efficiency_decay material cycles_per_day avg_humidity day)) 1 n)
  ]
