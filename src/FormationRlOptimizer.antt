-- ===== src/FormationRlOptimizer.antt =====
-- The class FormationRLOptimizer of backend/src/formation_simulator.cpp: the states and actions of its
-- Q-learning, the choice of an action, the update of the table, and one step of an episode. What a
-- simulated engagement gives is an input of the step, as are the draws.
pub mod Episode
pub mod Learning
pub mod Training
pub mod Ending
pub mod Actions
mod Tests
use Prim.Native.String.{String}
use ai_solo_coder_task_b.Prelude.{
  ℕ, zero, suc, ◌+◌, ◌-◌, ◌*◌, ◌/◌, ◌%◌, min, max, Bool, true, false, not, ◌&&◌, ◌||◌, Option, none,
  some, List, [], ◌∷◌, ◌++◌, ltb, leb, ◌==◌, if◌then◌else◌, length,
}
use ai_solo_coder_task_b.Prelude.Int.{ℤ, pos, negsuc, pos_part, sub_ℕ, ◌-ℤ◌, quotient}
use ai_solo_coder_task_b.Double.{Double, ◌⊕◌, ◌⊖◌, ◌⊗◌, ◌⊘◌, gt, pi, of_size}
use ai_solo_coder_task_b.Double
use ai_solo_coder_task_b.FormationSimulator.Designs.{
  FormationType, line_abreast, wedge, echelon_left, echelon_right, vee, archer_parabola, coiled_bow,
  crane_wing, square_grid, fish_scale, to_int,
}
use ai_solo_coder_task_b.FormationSimulator.{TargetSpecification}

pub record FiringPlan (W : Type 0) : Type 0 where
  pub round_id : ℤ
  pub start_timestamp_ms : ℤ
  pub end_timestamp_ms : ℤ
  pub total_projectiles : ℤ
  pub crossbows_firing : ℤ
  pub salvo_interval_ms : W
  pub time_on_target_s : W
  pub average_volleys_per_minute : W
  pub density_at_target_projectiles_per_m2 : W
  pub estimated_kill_probability : W
  pub estimated_casualties : W
  pub ammunition_consumed : W
  pub supply_burden_kg : W

pub record EngagementResult (W : Type 0) : Type 0 where
  pub formation_type : FormationType
  pub formation_name : String
  pub num_crossbows : ℤ
  pub total_shots : ℤ
  pub total_hits : ℤ
  pub overall_hit_probability : W
  pub target_coverage_percent : W
  pub saturation_score : W
  pub suppression_effect : W
  pub enemy_response_time_s : W
  pub friendly_risk_radius_m : W
  pub logistical_efficiency : W
  pub firing_plan : FiringPlan W
  pub hit_pattern : List (W × W)
  pub timestamp_ms : ℤ

pub record RlObservation (W : Type 0) : Type 0 where
  pub formation_type_id : ℕ
  pub num_crossbows : ℤ
  pub target_center_x : W
  pub target_center_y : W
  pub target_size : W
  pub avg_distance : W
  pub current_hit_rate : W
  pub current_coverage : W
  pub wind_speed : W
  pub wind_direction : W
  pub action_taken : W
  pub reward : W
  pub step : ℕ

-- The members but the generators, the simulator and its types, and the value function that nothing reads.
pub record FormationRlOptimizer (W : Type 0) : Type 0 where
  pub target : TargetSpecification W
  pub wind_x : W
  pub wind_y : W
  pub visibility_km : W
  pub min_crossbows : ℤ
  pub max_crossbows : ℤ
  pub allow_formation_switch : Bool
  pub allow_spacing_switch : Bool
  pub allow_orientation_switch : Bool
  pub q_table : List (List W)

unfoldable pub get_num_states : ℕ
get_num_states = 10 * 8 * 5 * 5

module _ {W : Type 0} where
  unfoldable pub set_environment : W → W → W → FormationRlOptimizer W → FormationRlOptimizer W
  set_environment wind_x wind_y visibility_km o = record o {
    wind_x = wind_x;
    wind_y = wind_y;
    visibility_km = visibility_km;
  }

  unfoldable pub set_training_conditions :
      ℤ → ℤ → Bool → Bool → Bool → FormationRlOptimizer W → FormationRlOptimizer W
  set_training_conditions min_crossbows max_crossbows formation spacing orientation o = record o {
    min_crossbows = min_crossbows;
    max_crossbows = max_crossbows;
    allow_formation_switch = formation;
    allow_spacing_switch = spacing;
    allow_orientation_switch = orientation;
  }

  unfoldable pub get_num_actions : FormationRlOptimizer W → ℕ
  get_num_actions o =
      1
      + (if o.allow_formation_switch then 9 else 0)
      + (if o.allow_spacing_switch then 5 else 0)
      + (if o.allow_orientation_switch then 8 else 0)

-- `static_cast<FormationType>` of a number below 10.
abbrev formation_at : ℕ → FormationType
formation_at n =
    if n == 0
    then line_abreast
    else if n == 1
    then wedge
    else if n == 2
    then echelon_left
    else if n == 3
    then echelon_right
    else if n == 4
    then vee
    else if n == 5
    then archer_parabola
    else if n == 6
    then coiled_bow
    else if n == 7
    then crane_wing
    else if n == 8
    then square_grid
    else fish_scale

module _ {W : Type 0} where
  unfoldable pub get_formation_for_action : FormationRlOptimizer W → ℕ → FormationType
  get_formation_for_action o action =
      if not o.allow_formation_switch || ltb action 10
      then formation_at (action % 10)
      else line_abreast

-- `table[i]`, of which nothing is read beyond its end, and its change.
abbrev pub row_at : {A : Type 0} → List (List A) → ℕ → List A
row_at [] i = []
row_at (row ∷ table) zero = row
row_at (row ∷ table) (suc i) = row_at table i

unfoldable pub modify : {A : Type 0} → (A → A) → ℕ → List A → List A
modify f i [] = []
modify f zero (x ∷ xs) = f x ∷ xs
modify f (suc i) (x ∷ xs) = x ∷ modify f i xs

module _ {W : Type 0} ⦃d : Double W⦄ where
  open d use {lit, neg, lt, trunc, sqrt, atan2}

  -- `max(0, z)` is the part of `z` that is not negative.
  unfoldable pub discretize_state : FormationRlOptimizer W → FormationType → ℤ → W → W → ℕ
  discretize_state o formation crossbows avg_distance coverage =
      let f = min 9 (to_int formation) in
      let bin = max 1 (pos_part (quotient (o.max_crossbows -ℤ o.min_crossbows) 7)) in
      let cb_bin = min 7 (pos_part (quotient (crossbows -ℤ o.min_crossbows) bin)) in
      let d_bin = min 4 (pos_part (trunc (avg_distance ⊘ lit 100 0))) in
      let c_bin = min 4 (pos_part (trunc (coverage ⊘ lit 20 0))) in
      f * 200 + cb_bin * 25 + d_bin * 5 + c_bin

  unfoldable pub calculate_spacing_modifier : FormationRlOptimizer W → ℕ → W
  calculate_spacing_modifier o action =
      if not o.allow_spacing_switch || ltb action 10
      then lit 1 0
      else lit 7 1 ⊕ of_size ((action - 10) % 5) ⊗ lit 15 2

  -- The loop over the actions below `n`, from action `a`.
  unfoldable pub best_action : ℕ → ℕ → List W → ℕ → W → ℕ
  best_action n a [] best_a best_q = best_a
  best_action zero a (q ∷ actions) best_a best_q = best_a
  best_action (suc n) a (q ∷ actions) best_a best_q =
      if gt q best_q
      then best_action n (suc a) actions a q
      else best_action n (suc a) actions best_a best_q

  -- `u` is drawn from [0, 1), `draw` from the actions.
  unfoldable pub select_action : FormationRlOptimizer W → ℕ → W → W → ℕ → ℕ
  unfolding best_action get_num_actions
  select_action o state exploration_rate u draw =
      if lt u exploration_rate
      then draw
      else if leb (length o.q_table) state
      then 0
      else best_action (get_num_actions o) 0 (row_at o.q_table state) 0 (neg (lit 1_000_000_000 0))

  unfoldable pub evaluate_reward : EngagementResult W → W → W → W → W → W → W
  evaluate_reward e hit_rate coverage saturation logistics casualties =
      let r =
        lit 0 0
        ⊕ e.overall_hit_probability ⊗ lit 100 0 ⊗ hit_rate
        ⊕ e.target_coverage_percent ⊗ coverage
        ⊕ e.saturation_score ⊗ lit 100 0 ⊗ saturation
        ⊕ e.logistical_efficiency ⊗ lit 100 0 ⊗ logistics
        ⊕ Double.min (lit 100 0) e.firing_plan.estimated_casualties ⊗ casualties
        ⊖ e.friendly_risk_radius_m ⊘ lit 100 0 ⊗ lit 5 0 in
      r ⊘ lit 100 0

  -- `for (double q : row) max_next_q = std::max(max_next_q, q)`.
  unfoldable pub max_from : W → List W → W
  max_from m [] = m
  max_from m (q ∷ row) = max_from (Double.max m q) row

  -- The update of the table; beyond its end nothing is changed.
  unfoldable pub learn : W → W → ℕ → ℕ → ℕ → W → List (List W) → List (List W)
  unfolding max_from modify
  learn learning_rate discount_factor state action next_state next_reward table =
      let max_next_q = max_from (lit 0 0) (row_at table next_state) in
      modify
        (λ row.
          modify (λ q. q ⊕ learning_rate ⊗ (next_reward ⊕ discount_factor ⊗ max_next_q ⊖ q)) action
            row)
        state table

  -- The branch on the action: the next formation, spacing and orientation.
  unfoldable pub choose : FormationRlOptimizer W → ℕ → FormationType × W × W → FormationType × W × W
  unfolding get_formation_for_action calculate_spacing_modifier
  choose o action (f, spacing, orientation) =
      if o.allow_formation_switch && ltb action 10
      then (get_formation_for_action o action, spacing, orientation)
      else if o.allow_spacing_switch && (leb 10 action && ltb action 20)
      then (f, calculate_spacing_modifier o action, orientation)
      else if o.allow_orientation_switch && leb 20 action
      then (f, spacing, of_size ((action - 20) % 8) ⊗ lit 45 0 ⊖ lit 180 0)
      else (f, spacing, orientation)
