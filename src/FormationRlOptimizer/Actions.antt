-- ===== src/FormationRlOptimizer/Actions.antt =====
-- What the actions of the training can do, and the length of an episode.
use ai_solo_coder_task_b.Prelude.{
  ℕ, ◌+◌, ◌-◌, ◌/◌, ◌≤◌, ◌<◌, ◌≡◌, refl, ap, if◌then◌else◌, ◌⊎◌, inl, inr, Bool, true, false, ◌&&◌,
  none, some, arith, leb, ltb, ◌==◌, Bool-cases, max,
}
use ai_solo_coder_task_b.Double.{Double, ◌⊗◌, ◌⊖◌, of_size}
use ai_solo_coder_task_b.FormationSimulator.Designs.{FormationType}
use ai_solo_coder_task_b.FormationRlOptimizer.{FormationRlOptimizer, get_num_actions, choose}
use ai_solo_coder_task_b.FormationRlOptimizer.Episode.{steps_in_ep}

module _ {A : Type 0} (P : A → Type 0) where
  branches :
      (p q r : Bool) {x y z w : A}
      → P x
      → P y
      → (r ≡ true → P z)
      → P w
      → P (if p then x else if q then y else if r then z else w)
  branches true q r px py pz pw = px
  branches false true r px py pz pw = py
  branches false false true px py pz pw = pz refl
  branches false false false px py pz pw = pw

-- With the numbers that are drawn, that branch is taken by three actions of a full set only.
turn_numbers :
    (formations spacings turns : Bool) (action : ℕ)
    → action
      < 1 + (if formations then 9 else 0) + (if spacings then 5 else 0) + (if turns then 8 else 0)
    → (turns && leb 20 action) ≡ true
    → (formations ≡ true) × (spacings ≡ true) × (turns ≡ true) × (20 ≤ action) × (action ≤ 22)
turn_numbers true true true action h e = (refl, refl, refl, ground arith, omega arith)
turn_numbers true true false action h e = cc
turn_numbers true false turns action h e = absurd (ground arith)
turn_numbers false spacings turns action h e = absurd (ground arith)

module _ {W : Type 0} ⦃d : Double W⦄ where
  -- The orientation is set by the numbers 20, 21 and 22 at most, where every kind of change is allowed.
  pub record IsTurn (o : FormationRlOptimizer W) (action : ℕ) (next : W) : Type 0 where
    pub formations_allowed : o.allow_formation_switch ≡ true
    pub spacings_allowed : o.allow_spacing_switch ≡ true
    pub turns_allowed : o.allow_orientation_switch ≡ true
    pub from_twenty : 20 ≤ action
    pub to_twenty_two : action ≤ 22
    pub turned : next ≡ of_size (action - 20) ⊗ d.lit 45 0 ⊖ d.lit 180 0

  -- The orientation is changed only where formations, spacings and orientations may all be changed, and
  -- then by the actions 20, 21 and 22 only, to one of -180, -135 and -90 degrees.
  pub choose-IsTurn :
      (o : FormationRlOptimizer W) (action : ℕ) (f : FormationType) (spacing orientation : W)
      → action < get_num_actions o
      → ((choose o action (f, spacing, orientation)).2 ≡ orientation)
        ⊎ IsTurn o action (choose o action (f, spacing, orientation)).2
  unfolding choose get_num_actions
  choose-IsTurn o action f spacing orientation h =
      branches (λ (r : FormationType × W × W). (r.2 ≡ orientation) ⊎ IsTurn o action r.2)
        (o.allow_formation_switch && ltb action 10)
        (o.allow_spacing_switch && (leb 10 action && ltb action 20))
        (o.allow_orientation_switch && leb 20 action) (inl refl) (inl refl)
        (λ e.
          let (formations, spacings, turns, low, high) =
            turn_numbers o.allow_formation_switch o.allow_spacing_switch o.allow_orientation_switch
              action h e in
          inr (record {
            formations_allowed = formations;
            spacings_allowed = spacings;
            turns_allowed = turns;
            from_twenty = low;
            to_twenty_two = high;
            turned = ap (λ k. of_size k ⊗ d.lit 45 0 ⊖ d.lit 180 0) (omega arith);
          }))
        (inl refl)

-- An episode has from 5 to 15 steps where there are 15 episodes or more; with fewer, the code divides by
-- zero.
pub steps_in_ep-answer :
    (ep episodes : ℕ)
    → ((episodes < 15) × (steps_in_ep ep episodes ≡ none))
      ⊎ ((15 ≤ episodes) × (n : ℕ) × (steps_in_ep ep episodes ≡ some n) × (5 ≤ n) × (n ≤ 15))
unfolding steps_in_ep
steps_in_ep-answer ep episodes = elim (Bool-cases (episodes / 15 == 0)) [
  | inl few ↦ inl (ground arith, rw few refl)
  | inr many ↦
      inr (ground arith, max 5 (15 - ep / (episodes / 15)), rw many refl, omega arith, omega arith)
]
