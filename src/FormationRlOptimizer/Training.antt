-- ===== src/FormationRlOptimizer/Training.antt =====
-- What every step of the training keeps.
use ai_solo_coder_task_b.Prelude.{
  ℕ, zero, suc, ◌+◌, ◌≤◌, ◌<◌, ◌≡◌, refl, ◌∙◌, ap, List, [], ◌∷◌, map, arith, leb, length,
  length-append, All, Bool-cases, inl, inr,
}
use ai_solo_coder_task_b.Double.{Double, gt}
use ai_solo_coder_task_b.Prelude.Int.{ℤ}
use ai_solo_coder_task_b.FormationSimulator.Designs.{FormationType}
use ai_solo_coder_task_b.FormationRlOptimizer.{
  FormationRlOptimizer, get_num_states, get_num_actions, discretize_state, best_action,
  select_action, modify, max_from, learn, row_at,
}
use ai_solo_coder_task_b.FormationRlOptimizer.Episode.{
  Episode, Trial, default_reward, repeat, assign, train_step, train_steps,
}

-- A table of `n` rows of length `m`.
pub record IsTable {A : Type 0} (n m : ℕ) (table : List (List A)) : Type 0 where
  pub rows : length table ≡ n
  pub columns : All (λ row. length row ≡ m) table

length-repeat : {A : Type 0} (n : ℕ) (x : A) → length (repeat n x) ≡ n
unfolding repeat
length-repeat zero x = refl
length-repeat (suc n) x = ap suc (length-repeat n x)

repeat-All : {A : Type 0} (P : A → Type 0) (n : ℕ) (x : A) → P x → All P (repeat n x)
unfolding repeat
repeat-All P zero x h = tt
repeat-All P (suc n) x h = (h, repeat-All P n x h)

module _ {A : Type 0} (f : A → A) where
  length-modify : (i : ℕ) (xs : List A) → length (modify f i xs) ≡ length xs
  unfolding modify
  length-modify i [] = refl
  length-modify zero (x ∷ xs) = refl
  length-modify (suc i) (x ∷ xs) = ap suc (length-modify i xs)

  modify-All :
      (P : A → Type 0)
      → ((x : A) → P x → P (f x))
      → (i : ℕ) (xs : List A) → All P xs
      → All P (modify f i xs)
  unfolding modify
  modify-All P keep i [] h = tt
  modify-All P keep zero (x ∷ xs) h = (keep x h.0, h.1)
  modify-All P keep (suc i) (x ∷ xs) h = (h.0, modify-All P keep i xs h.1)

module _ {W : Type 0} ⦃d : Double W⦄ where
  learn-IsTable :
      (rate discount : W) (state action next_state : ℕ) (reward : W) (n m : ℕ)
      (table : List (List W))
      → IsTable n m table
      → IsTable n m (learn rate discount state action next_state reward table)
  unfolding learn
  learn-IsTable rate discount state action next_state reward n m table h = record {
    rows = length-modify _ state table ∙ h.rows;
    columns = modify-All _ _ (λ row e. length-modify _ action row ∙ e) state table h.columns;
  }

  pub discretize_state-bound :
      (o : FormationRlOptimizer W) (f : FormationType) (crossbows : ℤ) (distance coverage : W)
      → discretize_state o f crossbows distance coverage < get_num_states
  unfolding discretize_state get_num_states
  discretize_state-bound o f crossbows distance coverage = omega arith

  best_action-bound :
      (n a : ℕ) (actions : List W) (best_a : ℕ) (best_q : W) (k : ℕ)
      → best_a < k
      → a + n ≤ k
      → best_action n a actions best_a best_q < k
  unfolding best_action
  best_action-bound n a [] best_a best_q k b h = b
  best_action-bound zero a (q ∷ actions) best_a best_q k b h = b
  best_action-bound (suc n) a (q ∷ actions) best_a best_q k b h = elim (Bool-cases (gt q best_q)) [
    | inl better ↦ rw better (best_action-bound n (suc a) actions a q k (omega arith) (omega arith))
    | inr worse ↦ rw worse (best_action-bound n (suc a) actions best_a best_q k b (omega arith))
  ]

  get_num_actions-positive : (o : FormationRlOptimizer W) → 0 < get_num_actions o
  unfolding get_num_actions
  get_num_actions-positive o = omega arith

  pub select_action-bound :
      (o : FormationRlOptimizer W) (state : ℕ) (eps u : W) (draw : ℕ)
      → draw < get_num_actions o
      → select_action o state eps u draw < get_num_actions o
  unfolding select_action
  select_action-bound o state eps u draw h = elim (Bool-cases (d.lt u eps)) [
    | inl explore ↦ rw explore h
    | inr exploit ↦ rw exploit (elim (Bool-cases (leb (length o.q_table) state)) [
      | inl beyond ↦ rw beyond (get_num_actions-positive o)
      | inr within ↦ rw within (
          best_action-bound (get_num_actions o) 0 (row_at o.q_table state) 0 _ (get_num_actions o)
            (get_num_actions-positive o) (omega arith))
    ])
  ]

  pub assign-IsTable :
      (o : FormationRlOptimizer W)
      → IsTable get_num_states (get_num_actions (assign o)) (assign o).q_table
  unfolding assign get_num_actions
  assign-IsTable o = record {
    rows = length-repeat get_num_states _;
    columns = repeat-All _ get_num_states _ (length-repeat (get_num_actions o) _);
  }

  -- The state is one of the table's, and the table has a row for each state and a column for each action.
  pub record IsLearner (e : Episode W) : Type 0 where
    pub state_known : e.state < get_num_states
    pub table : IsTable get_num_states (get_num_actions e.optimizer) e.optimizer.q_table
    pub observed : length e.training_trajectory ≡ e.train_steps

  train_step-IsLearner :
      (rate discount eps : W) (trial : Trial W) (e : Episode W)
      → IsLearner e
      → IsLearner (train_step rate discount eps trial e)
  unfolding train_step get_num_actions
  train_step-IsLearner rate discount eps trial e h = record {
    state_known = discretize_state-bound e.optimizer _ e.effective_crossbows trial.distance _;
    table = learn-IsTable rate discount e.state _ _ _ get_num_states _ e.optimizer.q_table h.table;
    observed = omega (arith, length-append e.training_trajectory (_ ∷ []), h.observed);
  }

  -- Any steps of training, whatever was drawn and whatever the engagements gave, leave the state among
  -- the states of the table, and the table with its rows and columns; they are recorded one by one; and
  -- the best reward is the highest of those before and those that the steps gave.
  pub train_steps-IsLearner :
      (rate discount eps : W) (trials : List (Trial W)) (e : Episode W)
      → IsLearner e
      → IsLearner (train_steps rate discount eps trials e)
        × ((train_steps rate discount eps trials e).train_steps ≡ e.train_steps + length trials)
        × ((train_steps rate discount eps trials e).best_reward
            ≡ max_from e.best_reward (map (λ t. default_reward t.engagement) trials))
  unfolding train_steps train_step max_from
  train_steps-IsLearner rate discount eps [] e h = (h, omega arith, refl)
  train_steps-IsLearner rate discount eps (trial ∷ trials) e h =
      let (learner, count, best) =
        train_steps-IsLearner rate discount eps trials (train_step rate discount eps trial e)
          (train_step-IsLearner rate discount eps trial e h) in
      (learner, omega arith, best)
