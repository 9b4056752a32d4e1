-- ===== src/FormationRlOptimizer/Tests.antt =====
-- The training at concrete inputs.

use ai_solo_coder_task_b.Prelude.{
  ℕ, ◌+◌, ◌≡◌, ◌<◌, ◌≤◌, ◌⊎◌, refl, true, none, some, [], ◌∷◌, map, arith,
}
use ai_solo_coder_task_b.Prelude.Int.{ℤ, pos}
use ai_solo_coder_task_b.Double.Fixed.{fixed}
use ai_solo_coder_task_b.FormationSimulator.Designs.{line_abreast, vee}
use ai_solo_coder_task_b.FormationSimulator.{TargetType, TargetSpecification}
use ai_solo_coder_task_b.FormationRlOptimizer.{
  EngagementResult, FormationRlOptimizer, get_num_states, get_num_actions, choose, max_from,
}
use ai_solo_coder_task_b.FormationRlOptimizer.Episode.{
  Episode, Trial, default_reward, assign, train_steps, steps_in_ep,
}
use ai_solo_coder_task_b.FormationRlOptimizer.Training.{
  IsLearner, assign-IsTable, train_steps-IsLearner,
}
use ai_solo_coder_task_b.FormationRlOptimizer.Actions.{IsTurn, choose-IsTurn}
use ai_solo_coder_task_b.FormationRlOptimizer.Learning.{
  Schedule, EpisodeInput, RlOptimizationResult, train_q_learning,
}
use ai_solo_coder_task_b.FormationRlOptimizer.Ending.{IsTrained, train_q_learning-IsTrained}

abbrev nought : ℤ
nought = fixed.lit 0 0

abbrev wall : TargetSpecification ℤ
wall = record {
  kind = TargetType.linear_defense;
  name = "wall";
  center_x_m = nought;
  center_y_m = fixed.lit 200 0;
  width_m = fixed.lit 30 0;
  depth_m = fixed.lit 3 0;
  radius_m = fixed.lit 5 0;
  priority_factor = fixed.lit 1 0;
  hardness_factor = fixed.lit 1 0;
  personnel_estimate = 40;
}

abbrev optimizer : FormationRlOptimizer ℤ
optimizer = record {
  target = wall;
  wind_x = nought;
  wind_y = nought;
  visibility_km = fixed.lit 10 0;
  min_crossbows = pos 6;
  max_crossbows = pos 48;
  allow_formation_switch = true;
  allow_spacing_switch = true;
  allow_orientation_switch = true;
  q_table = [];
}

abbrev start : Episode ℤ
start = record {
  optimizer = assign optimizer;
  current_f = line_abreast;
  spacing = fixed.lit 1 0;
  orientation = nought;
  effective_crossbows = pos 24;
  state = 0;
  reward = nought;
  best_reward = fixed.neg (fixed.lit 1_000_000_000 0);
  best_formation = line_abreast;
  best_params = (fixed.lit 1 0, nought);
  train_steps = 0;
  training_trajectory = [];
}

abbrev engagement : EngagementResult ℤ
engagement = record {
  formation_type = vee;
  formation_name = "simulated";
  num_crossbows = pos 24;
  total_shots = pos 48;
  total_hits = pos 12;
  overall_hit_probability = fixed.lit 1 1;
  target_coverage_percent = fixed.lit 20 0;
  saturation_score = fixed.lit 5 1;
  suppression_effect = fixed.lit 45 2;
  enemy_response_time_s = fixed.lit 73 1;
  friendly_risk_radius_m = fixed.lit 80 0;
  logistical_efficiency = fixed.lit 4 1;
  firing_plan = record {
    round_id = pos 1;
    start_timestamp_ms = pos 0;
    end_timestamp_ms = pos 1500;
    total_projectiles = pos 48;
    crossbows_firing = pos 24;
    salvo_interval_ms = fixed.lit 500 0;
    time_on_target_s = fixed.lit 15 1;
    average_volleys_per_minute = fixed.lit 120 0;
    density_at_target_projectiles_per_m2 = fixed.lit 5 1;
    estimated_kill_probability = fixed.lit 1 1;
    estimated_casualties = fixed.lit 3 0;
    ammunition_consumed = fixed.lit 4 0;
    supply_burden_kg = fixed.lit 3 1;
  };
  hit_pattern = [];
  timestamp_ms = pos 0;
}

-- A step that tries the action drawn, number 4.
abbrev trial : Trial ℤ
trial = record { u = nought; draw = 4; engagement = engagement; distance = fixed.lit 200 0 }

first : 0 < get_num_states
unfolding get_num_states
first = omega arith

start-IsLearner : IsLearner start
start-IsLearner = record { state_known = first; table = assign-IsTable optimizer; observed = refl }

train_steps-IsLearner_example :
    IsLearner
      (train_steps (fixed.lit 1 1) (fixed.lit 95 2) (fixed.lit 2 1) (trial ∷ trial ∷ []) start)
    × ((train_steps
          (fixed.lit 1 1)
          (fixed.lit 95 2)
          (fixed.lit 2 1)
          (trial ∷ trial ∷ [])
          start).train_steps
        ≡ 0 + 2)
    × ((train_steps
          (fixed.lit 1 1)
          (fixed.lit 95 2)
          (fixed.lit 2 1)
          (trial ∷ trial ∷ [])
          start).best_reward
        ≡ max_from start.best_reward (map (λ t. default_reward t.engagement) (trial ∷ trial ∷ [])))
train_steps-IsLearner_example =
    train_steps-IsLearner (fixed.lit 1 1) (fixed.lit 95 2) (fixed.lit 2 1) (trial ∷ trial ∷ [])
      start start-IsLearner

last_turn : 21 < get_num_actions optimizer
unfolding get_num_actions
last_turn = omega arith

choose-IsTurn_example :
    ((choose optimizer 21 (vee, nought, nought)).2 ≡ nought)
    ⊎ IsTurn optimizer 21 (choose optimizer 21 (vee, nought, nought)).2
choose-IsTurn_example = choose-IsTurn optimizer 21 vee nought nought last_turn

-- Fifteen episodes whose trials are all alike.
abbrev fifteen : Schedule ℤ
fifteen = record {
  num_crossbows = pos 24;
  episodes = 15;
  learning_rate = fixed.lit 1 1;
  discount_factor = fixed.lit 95 2;
  exploration_rate = fixed.lit 2 1;
  exploration_decay = fixed.lit 995 3;
}

abbrev alike : ℕ → EpisodeInput ℤ
alike ep = record {
  extra_crossbows = 3;
  engagement = engagement;
  distance = fixed.lit 200 0;
  trial = λ i. trial;
}

positive : 0 < 15
positive = omega arith

train_q_learning-IsTrained_example :
    ((fifteen.episodes < 15)
      × (train_q_learning (pos 0) (λ f. engagement) fifteen alike optimizer ≡ none))
    ⊎ ((15 ≤ fifteen.episodes)
        × (r : RlOptimizationResult ℤ) × (train_q_learning
              (pos 0)
              (λ f. engagement)
              fifteen
              alike
              optimizer
            ≡ some r)
        × IsTrained fifteen r)
train_q_learning-IsTrained_example =
    train_q_learning-IsTrained (pos 0) (λ f. engagement) fifteen alike optimizer positive

fourteen : steps_in_ep 0 14 ≡ none
unfolding steps_in_ep
fourteen = refl
