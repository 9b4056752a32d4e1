-- ===== src/FormationRlOptimizer/Ending.antt =====
-- The training ends, and with how many episodes and steps.
use ai_solo_coder_task_b.Prelude.{
  ℕ, zero, suc, ◌+◌, ◌*◌, ◌≤◌, ◌<◌, ◌≡◌, refl, sym, ◌∙◌, ap, subst, ◌⊎◌, inl, inr, Bool, true,
  false, Option, none, some, [], ◌∷◌, arith, ltb, length, length-append, Bool-cases,
}
use ai_solo_coder_task_b.Prelude.Int.{ℤ}
use ai_solo_coder_task_b.Double.{Double}
use ai_solo_coder_task_b.FormationSimulator.Designs.{FormationType, line_abreast}
use ai_solo_coder_task_b.FormationRlOptimizer.{
  EngagementResult, FormationRlOptimizer, get_num_states,
}
use ai_solo_coder_task_b.FormationRlOptimizer.Episode.{Episode, Trial, steps_in_ep}
use ai_solo_coder_task_b.FormationRlOptimizer.Learning.{
  EpisodeInput, Schedule, Learning, RlOptimizationResult, trials_from, begin_episode, train_episode,
  breaks, run_episodes, begin_learning, summarise, train_q_learning,
}
use ai_solo_coder_task_b.FormationRlOptimizer.Training.{
  IsLearner, assign-IsTable, discretize_state-bound, train_steps-IsLearner,
}
use ai_solo_coder_task_b.FormationRlOptimizer.Actions.{steps_in_ep-answer}

length-trials_from :
    {W : Type 0} (trial : ℕ → Trial W) (n i : ℕ) → length (trials_from trial n i) ≡ n
unfolding trials_from
length-trials_from trial zero i = refl
length-trials_from trial (suc n) i = ap suc (length-trials_from trial n (suc i))

module _ {W : Type 0} ⦃d : Double W⦄ where
  -- After `ep` episodes of from 5 to 15 steps.
  record IsProgress (ep : ℕ) (l : Learning W) : Type 0 where
    pub learner : IsLearner l.episode
    pub rewarded : length l.episode_rewards ≡ ep
    pub counted : l.converged_count ≤ ep
    pub least : 5 * ep ≤ l.episode.train_steps
    pub most : l.episode.train_steps ≤ 15 * ep

  begin_episode-IsLearner :
      (schedule : Schedule W) (input : EpisodeInput W) (ep : ℕ) (e : Episode W)
      → IsLearner e
      → IsLearner (begin_episode schedule input ep e)
  unfolding begin_episode
  begin_episode-IsLearner schedule input ep e h = record {
    state_known = discretize_state-bound e.optimizer line_abreast _ input.distance _;
    table = h.table;
    observed = h.observed;
  }

  begin_episode-steps :
      (schedule : Schedule W) (input : EpisodeInput W) (ep : ℕ) (e : Episode W)
      → (begin_episode schedule input ep e).train_steps ≡ e.train_steps
  unfolding begin_episode
  begin_episode-steps schedule input ep e = refl

  train_episode-IsProgress :
      (schedule : Schedule W) (input : EpisodeInput W) (ep steps : ℕ) (l : Learning W)
      → 5 ≤ steps
      → steps ≤ 15
      → IsProgress ep l
      → IsProgress (suc ep) (train_episode schedule input ep steps l)
  unfolding train_episode
  train_episode-IsProgress schedule input ep steps l low high h =
      let (learner, count, best) =
        train_steps-IsLearner schedule.learning_rate schedule.discount_factor l.current_eps
          (trials_from input.trial steps 0) (begin_episode schedule input ep l.episode)
          (begin_episode-IsLearner schedule input ep l.episode h.learner) in
      let size = length-trials_from input.trial steps 0 in
      let start = begin_episode-steps schedule input ep l.episode in
      record {
        learner = learner;
        rewarded = omega (arith, length-append l.episode_rewards (_ ∷ []), h.rewarded);
        counted = ground (arith, h.counted);
        least = omega (arith, h.least);
        most = omega (arith, h.most);
      }

  begin_learning-IsProgress :
      (schedule : Schedule W) (o : FormationRlOptimizer W)
      → IsProgress 0 (begin_learning schedule o)
  unfolding begin_learning get_num_states
  begin_learning-IsProgress schedule o = record {
    learner = record { state_known = omega arith; table = assign-IsTable o; observed = refl };
    rewarded = refl;
    counted = omega arith;
    least = omega arith;
    most = omega arith;
  }

  -- The loop was left after `ep` episodes, by its bound or after more than 100 that converged.
  record IsDone (schedule : Schedule W) (l : Learning W) : Type 0 where
    pub ep : ℕ
    pub progress : IsProgress ep l
    pub bounded : ep ≤ schedule.episodes
    pub by_bound : (ep ≡ schedule.episodes) ⊎ (101 ≤ ep)

  breaks-count :
      (schedule : Schedule W) (ep : ℕ) (l : Learning W)
      → breaks schedule ep l ≡ true
      → 100 < l.converged_count
  unfolding breaks
  breaks-count schedule ep l e = ground arith

  -- The loop with a round to go, where the division gives a number.
  run_episodes-next :
      (schedule : Schedule W) (input : ℕ → EpisodeInput W) (rest ep steps : ℕ) (l : Learning W)
      (b : Bool)
      → steps_in_ep ep schedule.episodes ≡ some steps
      → breaks schedule ep (train_episode schedule (input ep) ep steps l) ≡ b
      → run_episodes schedule input (suc rest) ep l ≡ (elim b as (λ _. Option (Learning W)) [
        | true ↦ some (train_episode schedule (input ep) ep steps l)
        | false ↦
            run_episodes schedule input rest (suc ep) (train_episode schedule (input ep) ep steps l)
      ])
  unfolding run_episodes
  run_episodes-next schedule input rest ep steps l b e e' =
      ap
        (λ o. elim o as (λ _. Option (Learning W)) [
          | none ↦ none
          | some n ↦
              elim (breaks schedule ep (train_episode schedule (input ep) ep n l))
                as (λ _. Option (Learning W)) [
                  | true ↦ some (train_episode schedule (input ep) ep n l)
                  | false ↦
                      run_episodes schedule input rest (suc ep)
                        (train_episode schedule (input ep) ep n l)
                ]
        ])
        e
      ∙ ap
          (λ b'. elim b' as (λ _. Option (Learning W)) [
            | true ↦ some (train_episode schedule (input ep) ep steps l)
            | false ↦
                run_episodes schedule input rest (suc ep)
                  (train_episode schedule (input ep) ep steps l)
          ])
          e'

  run_episodes-IsDone :
      (schedule : Schedule W) (input : ℕ → EpisodeInput W) (rest ep : ℕ) (l : Learning W)
      → ep + rest ≡ schedule.episodes
      → 15 ≤ schedule.episodes
      → IsProgress ep l
      → (r : Learning W) × (run_episodes schedule input rest ep l ≡ some r) × IsDone schedule r
  unfolding run_episodes
  run_episodes-IsDone schedule input zero ep l e many h = (
    l,
    refl,
    record { ep = ep; progress = h; bounded = omega arith; by_bound = inl (omega arith) },
  )
  run_episodes-IsDone schedule input (suc rest) ep l e many h =
      after (steps_in_ep-answer ep schedule.episodes)
        (λ l' h'. run_episodes-IsDone schedule input rest (suc ep) l' (omega arith) many h')
    where
      Goal : Type 0
      Goal =
          (r : Learning W) × (run_episodes schedule input (suc rest) ep l ≡ some r)
          × IsDone schedule r

      left_or_on :
          (steps : ℕ) (b : Bool)
          → steps_in_ep ep schedule.episodes ≡ some steps
          → IsProgress (suc ep) (train_episode schedule (input ep) ep steps l)
          → breaks schedule ep (train_episode schedule (input ep) ep steps l) ≡ b
          → ((l' : Learning W)
              → IsProgress (suc ep) l'
              → (r : Learning W) × (run_episodes schedule input rest (suc ep) l' ≡ some r)
                × IsDone schedule r)
          → Goal
      left_or_on steps true is p stop later = (
        train_episode schedule (input ep) ep steps l,
        run_episodes-next schedule input rest ep steps l true is stop,
        record {
          ep = suc ep;
          progress = p;
          bounded = omega arith;
          by_bound = inr (omega (arith, p.counted, breaks-count schedule ep _ stop));
        },
      )
      left_or_on steps false is p stop later =
          let (r, same, done) = later (train_episode schedule (input ep) ep steps l) p in
          (r, run_episodes-next schedule input rest ep steps l false is stop ∙ same, done)

      after :
          ((schedule.episodes < 15) × (steps_in_ep ep schedule.episodes ≡ none))
            ⊎ ((15 ≤ schedule.episodes)
                × (n : ℕ) × (steps_in_ep ep schedule.episodes ≡ some n)
                × (5 ≤ n)
                × (n ≤ 15))
          → ((l' : Learning W)
              → IsProgress (suc ep) l'
              → (r : Learning W) × (run_episodes schedule input rest (suc ep) l' ≡ some r)
                × IsDone schedule r)
          → Goal
      after (inl few) later = absurd (omega (arith, few.0))
      after (inr (enough, n, is, low, high)) later =
          left_or_on n _ is (train_episode-IsProgress schedule (input ep) ep n l low high h) refl
            later

  -- What holds of a result of the training.
  pub record IsTrained (schedule : Schedule W) (r : RlOptimizationResult W) : Type 0 where
    pub bounded : r.episodes_trained ≤ schedule.episodes
    pub by_bound : (r.episodes_trained ≡ schedule.episodes) ⊎ (101 ≤ r.episodes_trained)
    pub least : 5 * r.episodes_trained ≤ length r.training_trajectory
    pub most : length r.training_trajectory ≤ 15 * r.episodes_trained

  run_episodes-none :
      (schedule : Schedule W) (input : ℕ → EpisodeInput W) (rest : ℕ) (l : Learning W)
      → 0 < rest
      → steps_in_ep 0 schedule.episodes ≡ none
      → run_episodes schedule input rest 0 l ≡ none
  unfolding run_episodes
  run_episodes-none schedule input zero l h e = absurd (omega arith)
  run_episodes-none schedule input (suc rest) l h e =
      ap
        (λ o. elim o as (λ _. Option (Learning W)) [
          | none ↦ none
          | some n ↦
              elim (breaks schedule 0 (train_episode schedule (input 0) 0 n l))
                as (λ _. Option (Learning W)) [
                  | true ↦ some (train_episode schedule (input 0) 0 n l)
                  | false ↦
                      run_episodes schedule input rest 1 (train_episode schedule (input 0) 0 n l)
                ]
        ])
        e

  summarise-IsTrained :
      (now : ℤ) (value : FormationType → EngagementResult W) (schedule : Schedule W)
      (l : Learning W)
      → IsDone schedule l
      → IsTrained schedule (summarise now value l)
  unfolding summarise
  summarise-IsTrained now value schedule l h =
      let p = h.progress in
      record {
        bounded = omega (arith, p.rewarded, h.bounded);
        by_bound = subst (λ k. (k ≡ schedule.episodes) ⊎ (101 ≤ k)) (sym p.rewarded) h.by_bound;
        least = omega (arith, p.rewarded, p.least, p.learner.observed);
        most = omega (arith, p.rewarded, p.most, p.learner.observed);
      }

  -- A training of one episode at least either has fewer than 15, and divides by zero, or has 15 or more
  -- and ends with a result, whatever the draws and the engagements: it has run all the episodes, or left
  -- the loop after 101 at the least, and it has recorded from 5 to 15 steps for each episode.
  pub train_q_learning-IsTrained :
      (now : ℤ) (value : FormationType → EngagementResult W) (schedule : Schedule W)
      (input : ℕ → EpisodeInput W) (o : FormationRlOptimizer W)
      → 0 < schedule.episodes
      → ((schedule.episodes < 15) × (train_q_learning now value schedule input o ≡ none))
        ⊎ ((15 ≤ schedule.episodes)
            × (r : RlOptimizationResult W) × (train_q_learning now value schedule input o ≡ some r)
            × IsTrained schedule r)
  unfolding train_q_learning
  train_q_learning-IsTrained now value schedule input o some_episodes =
      elim (Bool-cases (ltb schedule.episodes 15)) [
        | inl few ↦ inl (
          ground arith,
          ap finish (
              run_episodes-none schedule input schedule.episodes _ some_episodes
                (few_divide (ground arith))),
        )
        | inr many ↦
            let (l, same, done) =
              run_episodes-IsDone schedule input schedule.episodes 0 (begin_learning schedule o)
                (omega arith) (ground arith) (begin_learning-IsProgress schedule o) in
            inr (
              ground arith,
              summarise now value l,
              ap finish same,
              summarise-IsTrained now value schedule l done,
            )
      ]
    where
      finish : Option (Learning W) → Option (RlOptimizationResult W)
      finish none = none
      finish (some l) = some (summarise now value l)

      few_divide : schedule.episodes < 15 → steps_in_ep 0 schedule.episodes ≡ none
      few_divide few = elim (steps_in_ep-answer 0 schedule.episodes) [
        | inl h ↦ h.1
        | inr h ↦ absurd (omega (arith, h.0))
      ]
