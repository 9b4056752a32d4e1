-- ===== src/FormationRlOptimizer/Learning.antt =====
-- `train_q_learning` of backend/src/formation_simulator.cpp: the loop over the episodes, and its result.
use ai_solo_coder_task_b.Prelude.{
  ℕ, zero, suc, ◌%◌, Bool, true, false, ◌&&◌, Option, none, some, List, [], ◌∷◌, ◌++◌, map, ltb,
  ◌==◌, if◌then◌else◌, length, get_elem?,
}
use ai_solo_coder_task_b.Prelude.Int.{ℤ, pos, ◌+ℤ◌, quotient}
use ai_solo_coder_task_b.Double.{Double, ◌⊕◌, ◌⊖◌, ◌⊗◌, ◌⊘◌, gt, of_size}
use ai_solo_coder_task_b.Double
use ai_solo_coder_task_b.FormationSimulator.Designs.{
  FormationType, line_abreast, wedge, echelon_left, echelon_right, vee, archer_parabola, coiled_bow,
  crane_wing, square_grid, fish_scale,
}
use ai_solo_coder_task_b.FormationSimulator.{CrossbowPlacement, FormationSimulator}
use ai_solo_coder_task_b.FormationSimulator.Generate.{generate_formation}
use ai_solo_coder_task_b.FormationRlOptimizer.{
  EngagementResult, RlObservation, FormationRlOptimizer, discretize_state,
}
use ai_solo_coder_task_b.FormationRlOptimizer.Episode.{
  Episode, Trial, default_reward, assign, steps_in_ep, train_steps,
}

-- What comes into an episode from outside: the draw of its number of crossbows, the result and the mean
-- distance of the formation it begins with, and its trials.
pub record EpisodeInput (W : Type 0) : Type 0 where
  pub extra_crossbows : ℕ
  pub engagement : EngagementResult W
  pub distance : W
  pub trial : ℕ → Trial W

-- The arguments of a call.
pub record Schedule (W : Type 0) : Type 0 where
  pub num_crossbows : ℤ
  pub episodes : ℕ
  pub learning_rate : W
  pub discount_factor : W
  pub exploration_rate : W
  pub exploration_decay : W

-- The variables that live through all episodes.
pub record Learning (W : Type 0) : Type 0 where
  pub episode : Episode W
  pub current_eps : W
  pub moving_avg : W
  pub converged_count : ℕ
  pub episode_rewards : List (ℕ × W)

pub record RlOptimizationResult (W : Type 0) : Type 0 where
  pub best_formation : FormationType
  pub best_placement_params : List W
  pub best_reward : W
  pub episodes_trained : ℕ
  pub convergence_rate : W
  pub episode_rewards : List (ℕ × W)
  pub training_trajectory : List (RlObservation W)
  pub formation_value_estimates : List (FormationType × W)
  pub timestamp_ms : ℤ

-- The trials from number `i` on.
unfoldable pub trials_from : {W : Type 0} → (ℕ → Trial W) → ℕ → ℕ → List (Trial W)
trials_from trial zero i = []
trials_from trial (suc n) i = trial i ∷ trials_from trial n (suc i)

abbrev all_formations : List FormationType
all_formations =
    line_abreast ∷ wedge ∷ echelon_left ∷ echelon_right ∷ vee ∷ archer_parabola ∷ coiled_bow
    ∷ crane_wing ∷ square_grid ∷ fish_scale ∷ []

module _ {W : Type 0} ⦃d : Double W⦄ where
  open d use {lit, neg, lt, abs}

  -- An episode up to its steps. The draw is the number that is added to the smallest.
  unfoldable pub begin_episode : Schedule W → EpisodeInput W → ℕ → Episode W → Episode W
  unfolding discretize_state
  begin_episode schedule input ep e =
      let o = e.optimizer in
      let crossbows =
        if ep % 7 == 0
        then o.min_crossbows +ℤ pos input.extra_crossbows
        else schedule.num_crossbows in
      record e {
        current_f = line_abreast;
        spacing = lit 1 0;
        orientation = lit 0 0;
        effective_crossbows = crossbows;
        state =
            discretize_state o line_abreast crossbows input.distance
              input.engagement.target_coverage_percent;
        reward = default_reward input.engagement;
      }

  -- `ep > episodes * 0.3 && current_eps < 0.05`.
  abbrev counts_convergence : Schedule W → ℕ → W → Bool
  counts_convergence schedule ep eps =
      gt (of_size ep) (of_size schedule.episodes ⊗ lit 3 1) && lt eps (lit 5 2)

  -- The body of the loop, of `steps` steps, but for its `break`.
  unfoldable pub train_episode : Schedule W → EpisodeInput W → ℕ → ℕ → Learning W → Learning W
  unfolding begin_episode train_steps trials_from
  train_episode schedule input ep steps l =
      let e =
        train_steps schedule.learning_rate schedule.discount_factor l.current_eps
          (trials_from input.trial steps 0) (begin_episode schedule input ep l.episode) in
      let moving_avg = if ep == 0 then e.reward else lit 95 2 ⊗ l.moving_avg ⊕ lit 5 2 ⊗ e.reward in
      let current_eps = l.current_eps ⊗ schedule.exploration_decay in
      let converged =
        if lt (abs (e.reward ⊖ moving_avg)) (lit 1 2) then suc l.converged_count else 0 in
      record {
        episode = e;
        current_eps = current_eps;
        moving_avg = moving_avg;
        converged_count =
            if counts_convergence schedule ep current_eps then converged else l.converged_count;
        episode_rewards = l.episode_rewards ++ ((ep, moving_avg) ∷ []);
      }

  -- The test of the `break`, after the body.
  unfoldable pub breaks : Schedule W → ℕ → Learning W → Bool
  breaks schedule ep l = counts_convergence schedule ep l.current_eps && ltb 100 l.converged_count

  -- The loop, with the rounds left; `none` where it divides by zero.
  unfoldable pub run_episodes :
      Schedule W → (ℕ → EpisodeInput W) → ℕ → ℕ → Learning W → Option (Learning W)
  unfolding train_episode breaks steps_in_ep
  run_episodes schedule input zero ep l = some l
  run_episodes schedule input (suc rest) ep l = elim (steps_in_ep ep schedule.episodes) [
    | none ↦ none
    | some steps ↦ elim (breaks schedule ep (train_episode schedule (input ep) ep steps l)) [
      | true ↦ some (train_episode schedule (input ep) ep steps l)
      | false ↦
          run_episodes schedule input rest (suc ep) (train_episode schedule (input ep) ep steps l)
    ]
  ]

  -- The variables before the loop; a call of an episode sets those of the episode.
  unfoldable pub begin_learning : Schedule W → FormationRlOptimizer W → Learning W
  unfolding assign
  begin_learning schedule o = record {
    episode = record {
      optimizer = assign o;
      current_f = line_abreast;
      spacing = lit 1 0;
      orientation = lit 0 0;
      effective_crossbows = schedule.num_crossbows;
      state = 0;
      reward = lit 0 0;
      best_reward = neg (lit 1_000_000_000 0);
      best_formation = line_abreast;
      best_params = (lit 1 0, lit 0 0);
      train_steps = 0;
      training_trajectory = [];
    };
    current_eps = schedule.exploration_rate;
    moving_avg = lit 0 0;
    converged_count = 0;
    episode_rewards = [];
  }

  abbrev last_of : W → List (ℕ × W) → W
  last_of w [] = w
  last_of w ((ep, reward) ∷ rewards) = last_of reward rewards

  -- From the first and the last of more than 10 averages.
  unfoldable pub convergence_rate : List (ℕ × W) → W
  convergence_rate [] = lit 0 0
  convergence_rate ((ep, first) ∷ rewards) =
      if ltb 10 (length ((ep, first) ∷ rewards))
      then Double.max (lit 0 0) (lit 1 0 ⊖ abs (last_of first rewards ⊖ first) ⊘ lit 5 1)
      else lit 0 0

  -- `value` is what the engagements of the last loop give, `now` the clock.
  unfoldable pub summarise :
      ℤ → (FormationType → EngagementResult W) → Learning W → RlOptimizationResult W
  unfolding convergence_rate
  summarise now value l = record {
    best_formation = l.episode.best_formation;
    best_placement_params = l.episode.best_params.0 ∷ l.episode.best_params.1 ∷ [];
    best_reward = l.episode.best_reward;
    episodes_trained = length l.episode_rewards;
    convergence_rate = convergence_rate l.episode_rewards;
    episode_rewards = l.episode_rewards;
    training_trajectory = l.episode.training_trajectory;
    formation_value_estimates = map (λ f. (f, default_reward (value f))) all_formations;
    timestamp_ms = now;
  }

  unfoldable pub train_q_learning :
      ℤ
      → (FormationType → EngagementResult W)
      → Schedule W
      → (ℕ → EpisodeInput W)
      → FormationRlOptimizer W
      → Option (RlOptimizationResult W)
  unfolding run_episodes begin_learning summarise
  train_q_learning now value schedule input o =
      elim (run_episodes schedule input schedule.episodes 0 (begin_learning schedule o)) [
        | none ↦ none
        | some l ↦ some (summarise now value l)
      ]

  -- The number of steps and the weight of the baseline are not used.
  unfoldable pub train_policy_gradient :
      ℤ
      → (FormationType → EngagementResult W)
      → ℤ
      → ℕ
      → ℕ
      → W
      → W
      → (ℕ → EpisodeInput W)
      → FormationRlOptimizer W
      → Option (RlOptimizationResult W)
  unfolding train_q_learning
  train_policy_gradient now value num_crossbows episodes steps_per_episode learning_rate weight
        input o =
      train_q_learning now value
        (record {
          num_crossbows = num_crossbows;
          episodes = episodes;
          learning_rate = learning_rate ⊗ lit 8 1;
          discount_factor = lit 9 1;
          exploration_rate = lit 15 2;
          exploration_decay = lit 99 2;
        })
        input o

  abbrev param_or : W → List W → ℕ → W
  param_or default params i = elim (get_elem? params i) [ none ↦ default | some w ↦ w ]

  unfoldable pub apply_optimal_policy :
      FormationSimulator W
      → FormationRlOptimizer W
      → RlOptimizationResult W
      → W
      → W
      → W
      → List (CrossbowPlacement W)
  unfolding generate_formation
  apply_optimal_policy simulator o result center_x center_y orientation =
      generate_formation simulator result.best_formation
        (quotient (o.min_crossbows +ℤ o.max_crossbows) 2) center_x center_y
        (orientation ⊕ param_or (lit 0 0) result.best_placement_params 1)
        (param_or (lit 1 0) result.best_placement_params 0)
