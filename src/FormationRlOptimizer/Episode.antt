-- ===== src/FormationRlOptimizer/Episode.antt =====
-- An episode of `train_q_learning` in backend/src/formation_simulator.cpp.
use ai_solo_coder_task_b.Prelude.{
  ℕ, zero, suc, ◌-◌, ◌/◌, max, Option, none, some, List, [], ◌∷◌, ◌++◌, ◌==◌, if◌then◌else◌,
}
use ai_solo_coder_task_b.Prelude.Int.{ℤ}
use ai_solo_coder_task_b.Double.{Double, ◌⊕◌, ◌⊗◌, ◌⊘◌, gt, pi, of_size}
use ai_solo_coder_task_b.FormationSimulator.Designs.{FormationType, to_int}
use ai_solo_coder_task_b.FormationRlOptimizer.{
  EngagementResult, RlObservation, FormationRlOptimizer, get_num_states, get_num_actions,
  discretize_state, select_action, evaluate_reward, learn, choose,
}

-- The optimizer, and the variables of `train_q_learning` that a step reads or sets.
pub record Episode (W : Type 0) : Type 0 where
  pub optimizer : FormationRlOptimizer W
  pub current_f : FormationType
  pub spacing : W
  pub orientation : W
  pub effective_crossbows : ℤ
  pub state : ℕ
  pub reward : W
  pub best_reward : W
  pub best_formation : FormationType
  pub best_params : W × W
  pub train_steps : ℕ
  pub training_trajectory : List (RlObservation W)

-- What comes into a step from outside: the two draws of `select_action`, and the result and the mean
-- distance of the formation that was tried.
pub record Trial (W : Type 0) : Type 0 where
  pub u : W
  pub draw : ℕ
  pub engagement : EngagementResult W
  pub distance : W

-- The rounds of an episode; `none` where the division is by 0.
unfoldable pub steps_in_ep : ℕ → ℕ → Option ℕ
steps_in_ep ep episodes =
    if episodes / 15 == 0 then none else some (max 5 (15 - ep / (episodes / 15)))

-- `std::vector(n, x)`.
unfoldable pub repeat : {A : Type 0} → ℕ → A → List A
repeat zero x = []
repeat (suc n) x = x ∷ repeat n x

module _ {W : Type 0} ⦃d : Double W⦄ where
  open d use {lit, sqrt, atan2}

  -- `q_table_.assign(n_states, std::vector<double>(n_actions, 0.0))`.
  unfoldable pub assign : FormationRlOptimizer W → FormationRlOptimizer W
  unfolding repeat
  assign o = record o { q_table = repeat get_num_states (repeat (get_num_actions o) (lit 0 0)) }

  -- `evaluate_reward` with the weights it has by default.
  abbrev pub default_reward : EngagementResult W → W
  default_reward e = evaluate_reward e (lit 4 1) (lit 25 2) (lit 2 1) (lit 1 1) (lit 5 2)

  unfoldable pub observe :
      FormationRlOptimizer W → FormationType → ℤ → ℕ → ℕ → W → Trial W → RlObservation W
  observe o next_f crossbows action step next_reward trial = record {
    formation_type_id = to_int next_f;
    num_crossbows = crossbows;
    target_center_x = o.target.center_x_m;
    target_center_y = o.target.center_y_m;
    target_size = o.target.width_m;
    avg_distance = trial.distance;
    current_hit_rate = trial.engagement.overall_hit_probability;
    current_coverage = trial.engagement.target_coverage_percent;
    wind_speed = sqrt (o.wind_x ⊗ o.wind_x ⊕ o.wind_y ⊗ o.wind_y);
    wind_direction = atan2 o.wind_y o.wind_x ⊗ lit 180 0 ⊘ pi;
    action_taken = of_size action;
    reward = next_reward;
    step = step;
  }

  -- The body of the loop over the steps.
  unfoldable pub train_step : W → W → W → Trial W → Episode W → Episode W
  unfolding select_action choose discretize_state evaluate_reward learn observe
  train_step learning_rate discount_factor current_eps trial e =
      let o = e.optimizer in
      let action = select_action o e.state current_eps trial.u trial.draw in
      let (next_f, next_spacing, next_orientation) =
        choose o action (e.current_f, e.spacing, e.orientation) in
      let next_state =
        discretize_state o next_f e.effective_crossbows trial.distance
          trial.engagement.target_coverage_percent in
      let next_reward = default_reward trial.engagement in
      let better = gt next_reward e.best_reward in
      record {
        optimizer = record o {
          q_table =
              learn learning_rate discount_factor e.state action next_state next_reward o.q_table;
        };
        current_f = next_f;
        spacing = next_spacing;
        orientation = next_orientation;
        effective_crossbows = e.effective_crossbows;
        state = next_state;
        reward = next_reward;
        best_reward = if better then next_reward else e.best_reward;
        best_formation = if better then next_f else e.best_formation;
        best_params = if better then (next_spacing, next_orientation) else e.best_params;
        train_steps = suc e.train_steps;
        training_trajectory =
            e.training_trajectory
            ++ (observe o next_f e.effective_crossbows action e.train_steps next_reward trial ∷ []);
      }

  -- The loop over the steps.
  unfoldable pub train_steps : W → W → W → List (Trial W) → Episode W → Episode W
  train_steps learning_rate discount_factor current_eps [] e = e
  train_steps learning_rate discount_factor current_eps (trial ∷ trials) e =
      train_steps learning_rate discount_factor current_eps trials
        (train_step learning_rate discount_factor current_eps trial e)
