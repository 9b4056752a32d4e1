-- ===== src/BowstringMaterial/Accuracy.antt =====
-- `optimize_material_for_accuracy` of backend/src/bowstring_material.cpp. `lowest` is the lowest finite double.
use ai_solo_coder_task_b.Prelude.{List, [], ◌∷◌, if◌then◌else◌, map}
use ai_solo_coder_task_b.Prelude.Int.{pos}
use ai_solo_coder_task_b.Double.{Double, ◌⊕◌, ◌⊗◌, ◌⊘◌, max, gt}
use ai_solo_coder_task_b.Sensor.{ShotRecord}
use ai_solo_coder_task_b.BowstringMaterial.Materials.{BowstringMaterial, unknown}
use ai_solo_coder_task_b.BowstringMaterial.{estimate_lifespan}
use ai_solo_coder_task_b.BowstringMaterial.Database.{get}
use ai_solo_coder_task_b.BowstringMaterial.Analyzer.{BowstringPerformanceAnalyzer, simulate_shot}

-- The scores of a candidate, before they are set against the greatest ones.
pub record Scores (W : Type 0) : Type 0 where
  pub accuracy : W
  pub power : W
  pub durability : W

pub record Weights (W : Type 0) : Type 0 where
  pub target_accuracy_weight : W
  pub power_weight : W
  pub durability_weight : W

module _ {W : Type 0} ⦃d : Double W⦄ where
  open d use {lit}

  unfoldable pub scores_of :
      ShotRecord W → BowstringPerformanceAnalyzer W → BowstringMaterial W → Scores W
  unfolding simulate_shot estimate_lifespan
  scores_of fresh s mat =
      let shot = simulate_shot fresh s mat (lit 15 0) in
      let velocity = shot.core_record.initial_velocity in
      let power = lit 5 1 ⊗ s.arrow_mass_kg ⊗ velocity ⊗ velocity in
      let acc_penalty =
        shot.string_mass ⊗ lit 2 0 ⊕ shot.damping_loss_joules ⊘ (power ⊕ lit 1 6) ⊗ lit 5 0 in
      record {
        accuracy = lit 1 0 ⊘ (lit 1 0 ⊕ acc_penalty);
        power = power;
        durability = estimate_lifespan mat (pos 200) (lit 5 1);
      }

  -- The greatest of each score, from those so far.
  unfoldable pub greatest : Scores W → List (Scores W) → Scores W
  greatest so_far [] = so_far
  greatest so_far (s ∷ scores) =
      greatest
        (record {
          accuracy = max so_far.accuracy s.accuracy;
          power = max so_far.power s.power;
          durability = max so_far.durability s.durability;
        })
        scores

  unfoldable pub weighed : Weights W → Scores W → Scores W → W
  weighed weights top s =
      s.accuracy ⊘ (top.accuracy ⊕ lit 1 6) ⊗ weights.target_accuracy_weight
      ⊕ s.power ⊘ (top.power ⊕ lit 1 6) ⊗ weights.power_weight
      ⊕ s.durability ⊘ (top.durability ⊕ lit 1 6) ⊗ weights.durability_weight

  -- The second loop: a candidate with a greater score takes the place of the best one.
  unfoldable pub pick : {M : Type 0} → (M → W) → W → M → List M → M
  pick score best_score best [] = best
  pick score best_score best (m ∷ mats) =
      let better = gt (score m) best_score in
      pick score (if better then score m else best_score) (if better then m else best) mats

  abbrev nothing_yet : Scores W
  nothing_yet = record { accuracy = lit 0 0; power = lit 0 0; durability = lit 0 0 }

  unfoldable pub candidate_score :
      ShotRecord W
      → BowstringPerformanceAnalyzer W
      → Weights W
      → List (BowstringMaterial W)
      → BowstringMaterial W
      → W
  unfolding scores_of greatest weighed
  candidate_score fresh s weights candidates mat =
      weighed weights (greatest nothing_yet (map (scores_of fresh s) candidates))
        (scores_of fresh s mat)

  unfoldable pub optimize_material_for_accuracy :
      W
      → ShotRecord W
      → BowstringPerformanceAnalyzer W
      → Weights W
      → List (BowstringMaterial W)
      → BowstringMaterial W
  unfolding get pick candidate_score
  optimize_material_for_accuracy lowest fresh s weights [] = get unknown
  optimize_material_for_accuracy lowest fresh s weights (m ∷ mats) =
      pick (candidate_score fresh s weights (m ∷ mats)) lowest m (m ∷ mats)
