-- ===== src/FormationSimulator/Chances.antt =====
-- `estimate_hit_probability` and `optimize_salvo_timing` of backend/src/formation_simulator.cpp. The loops
-- that bring an angle between -180 and 180 degrees have a bound on their rounds, and `none` stands for
-- an angle that is farther away.
use ai_solo_coder_task_b.Prelude.{
  ℕ, zero, suc, ◌+◌, ◌-◌, ◌/◌, ◌≡◌, ap, ◌∙◌, max, Bool, true, false, Option, none, some, List, [],
  ◌∷◌, if◌then◌else◌, length, Bool-cases, inl, inr, ◌>>=◌,
}
use ai_solo_coder_task_b.Prelude.Int.{pos_part}
use ai_solo_coder_task_b.Prelude.Map.{Map, find, insert}
use ai_solo_coder_task_b.Double.{Double, ◌⊕◌, ◌⊖◌, ◌⊗◌, ◌⊘◌, gt, pi, of_size, clamp}
use ai_solo_coder_task_b.Double
use ai_solo_coder_task_b.FormationSimulator.{
  CrossbowPlacement, TargetSpecification, FormationSimulator, distance_to_target,
  calculate_target_area,
}

pub record SalvoOptimization (W : Type 0) : Type 0 where
  pub optimal_salvo_size : ℕ
  pub optimal_interval_ms : W
  pub total_volleys : ℕ
  pub saturation_time_s : W
  pub average_projectile_spacing_m : W
  pub time_over_target_seconds : W
  pub minimum_overkill_penalty : W

-- `while (goes(x)) x = turn(x)`, for `rounds` at most.
unfoldable pub turn_while : {A : Type 0} → (A → Bool) → (A → A) → ℕ → A → Option A
turn_while goes turn zero x = elim (goes x) [ true ↦ none | false ↦ some x ]
turn_while goes turn (suc rounds) x = elim (goes x) [
  | true ↦ turn_while goes turn rounds (turn x)
  | false ↦ some x
]

module _ {A : Type 0} (goes : A → Bool) (turn : A → A) where
  abbrev turned : ℕ → A → A
  turned zero x = x
  turned (suc k) x = turned k (turn x)

  -- A bound that reaches a value at which the test fails is enough, and the loop's value fails it.
  pub turn_while-ends :
      (rounds : ℕ) (x : A)
      → goes (turned rounds x) ≡ false
      → (y : A) × (turn_while goes turn rounds x ≡ some y) × (goes y ≡ false)
  unfolding turn_while
  turn_while-ends zero x e =
      (x, ap (λ b. elim b as (λ _. Option A) [ true ↦ none | false ↦ some x ]) e, e)
  turn_while-ends (suc rounds) x e = elim (Bool-cases (goes x)) [
    | inl on ↦
        let (y, same, stop) = turn_while-ends rounds (turn x) e in
        (
          y,
          ap
                (λ b. elim b as (λ _. Option A) [
                  | true ↦ turn_while goes turn rounds (turn x)
                  | false ↦ some x
                ])
                on
              ∙ same,
          stop,
        )
    | inr off ↦ (
      x,
      ap
          (λ b. elim b as (λ _. Option A) [
            | true ↦ turn_while goes turn rounds (turn x)
            | false ↦ some x
          ])
          off,
      off,
    )
  ]

module _ {W : Type 0} ⦃d : Double W⦄ where
  open d use {lit, neg, lt, trunc, sqrt, exp, pow, atan2}

  -- The two loops over `angle_diff`.
  unfoldable pub wrap_angle : ℕ → W → Option W
  unfolding turn_while
  wrap_angle rounds x = do
    y ← turn_while (λ a. gt a (lit 180 0)) (λ a. a ⊖ lit 360 0) rounds x
    turn_while (λ a. lt a (neg (lit 180 0))) (λ a. a ⊕ lit 360 0) rounds y

  abbrev range_factor : W → W → W → W
  range_factor dist eff_range mx_range =
      if lt dist eff_range
      then lit 1 0 ⊖ lit 1 1 ⊗ (dist ⊘ eff_range)
      else if lt dist mx_range
      then lit 9 1 ⊗ (lit 1 0 ⊖ (dist ⊖ eff_range) ⊘ (mx_range ⊖ eff_range))
      else lit 5 2 ⊗ exp (neg (dist ⊖ mx_range) ⊘ lit 100 0)

  unfoldable pub estimate_hit_probability :
      ℕ → FormationSimulator W → CrossbowPlacement W → TargetSpecification W → Option W
  unfolding wrap_angle distance_to_target calculate_target_area find
  estimate_hit_probability rounds s placement target = do
    let dist = distance_to_target placement target
    let crossbow = find placement.crossbow_type_id s.crossbow_types
    let eff_range : W = elim crossbow [ none ↦ lit 180 0 | some c ↦ c.effective_range ]
    let mx_range : W = elim crossbow [ none ↦ lit 350 0 | some c ↦ c.max_range ]
    let area = calculate_target_area target
    let sigma = Double.max (lit 1 0) (dist ⊗ lit 15 3)
    let coverage_prob = lit 1 0 ⊖ exp (neg area ⊘ (lit 2 0 ⊗ pi ⊗ sigma ⊗ sigma))
    let aim = atan2 (target.center_y_m ⊖ placement.y_m) (target.center_x_m ⊖ placement.x_m)
    angle_diff ← wrap_angle rounds (aim ⊗ lit 180 0 ⊘ pi ⊖ placement.facing_deg)
    let angle_factor = exp (neg (pow (angle_diff ⊘ lit 45 0) (lit 2 0)))
    some (
        clamp
          (range_factor dist eff_range mx_range
            ⊗ coverage_prob
            ⊗ angle_factor
            ⊗ target.priority_factor)
          (lit 1 3) (lit 98 2))

  -- The keys of `groups`, which are not negative.
  abbrev groups_of : List (CrossbowPlacement W) → Map ℕ → Map ℕ
  groups_of [] groups = groups
  groups_of (p ∷ ps) groups = groups_of ps (insert (pos_part (trunc p.salvo_group)) 1 groups)

  -- `sum += dist / v0 * 1.5` over the crossbows.
  unfoldable pub flight_times :
      FormationSimulator W → TargetSpecification W → W → List (CrossbowPlacement W) → W
  unfolding distance_to_target find
  flight_times s target sum [] = sum
  flight_times s target sum (p ∷ ps) =
      let v0 : W = elim (find p.crossbow_type_id s.crossbow_types) [
        | none ↦ lit 80 0
        | some c ↦ lit 90 0
      ] in
      flight_times s target (sum ⊕ distance_to_target p target ⊘ v0 ⊗ lit 15 1) ps

  -- `blank` is the record that is returned unset where there is no crossbow. The number of
  -- projectiles needed is not negative.
  unfoldable pub optimize_salvo_timing :
      SalvoOptimization W
      → FormationSimulator W
      → List (CrossbowPlacement W)
      → TargetSpecification W
      → W
      → SalvoOptimization W
  unfolding flight_times calculate_target_area insert
  optimize_salvo_timing blank s [] target density = blank
  optimize_salvo_timing blank s (p ∷ ps) target density =
      let placements = p ∷ ps in
      let area = calculate_target_area target in
      let needed = pos_part (trunc (density ⊗ area)) in
      let per_cb = max 1 ((needed + length placements - 1) / length placements) in
      let group_count = max 1 (length (groups_of placements [])) in
      let time = flight_times s target (lit 0 0) placements ⊘ of_size (max 1 (length placements)) in
      let interval = Double.max (lit 100 0) (time ⊗ lit 1000 0 ⊘ of_size group_count) in
      let saturation = of_size (per_cb - 1) ⊗ interval ⊘ lit 1000 0 ⊕ time in
      record {
        optimal_salvo_size = length placements;
        optimal_interval_ms = interval;
        total_volleys = per_cb;
        saturation_time_s = saturation;
        average_projectile_spacing_m = sqrt (area ⊘ of_size (max 1 needed));
        time_over_target_seconds = saturation ⊕ time ⊗ lit 5 1;
        minimum_overkill_penalty =
            Double.max (lit 0 0) (lit 1 0 ⊖ of_size (length placements) ⊘ lit 50 0);
      }
