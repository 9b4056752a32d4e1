-- ===== src/DynamicsModel/Launch.antt =====
-- backend/src/dynamics_model.cpp: the launch phase, in which the string drives the arrow.
use ai_solo_coder_task_b.Prelude.{
  ℕ, zero, suc, ◌+◌, ◌≤◌, ◌≡◌, ◌⊎◌, inl, inr, refl, Bool, true, false, ◌&&◌, ◌||◌, List, [], ◌∷◌,
  arith, ◌==◌, if◌then◌else◌, length,
}
use ai_solo_coder_task_b.Double.{Double, ◌⊕◌, ◌⊖◌, ◌⊗◌, ◌⊘◌, gt, max, to_radians}
use ai_solo_coder_task_b.Sensor.{TrajectoryPoint, CrossbowType}
use ai_solo_coder_task_b.DynamicsModel.Forces.{
  zero_w, one, vec3, gravity, bow_efficiency, contact_threshold, penalty_stiffness, penalty_damping,
  limited_force, tanh_smooth, get_string_position_at_time,
}

pub record LaunchPhaseResult (W : Type 0) : Type 0 where
  pub initial_velocity : W
  pub max_string_acceleration : W
  pub contact_phase_time : W
  pub launch_trajectory : List (TrajectoryPoint W)

-- The variables of the loop that the rounds change.
pub record Launch (W : Type 0) : Type 0 where
  pub arrow_pos : W
  pub arrow_vel : W
  pub t : W
  pub max_acceleration : W

-- The rounds that were run: the variables at the end, the points, and whether the arrow separated.
pub record Launched (W : Type 0) : Type 0 where
  pub state : Launch W
  pub points : List (TrajectoryPoint W)
  pub has_separated : Bool

-- The bound on the rounds.
unfoldable pub max_launch_steps : ℕ
max_launch_steps = 50000

module _ {W : Type 0} ⦃d : Double W⦄ where
  open d use {lit, neg, lt, le, sqrt, cos, sin, abs}

  module _ (cb : CrossbowType W) (draw_length angle dt : W) where
    -- The speed of the string in round `i`.
    unfoldable pub string_velocity : ℕ → W → W
    string_velocity i t =
        let next = get_string_position_at_time cb (t ⊕ dt) draw_length in
        if i == 0
        then (next ⊖ get_string_position_at_time cb t draw_length) ⊘ dt
        else (next ⊖ get_string_position_at_time cb (t ⊖ dt) draw_length) ⊘ (lit 2 0 ⊗ dt)

    unfoldable pub drive_force : W → W → W
    drive_force penetration relative_vel =
        let total =
          limited_force (penalty_stiffness ⊗ penetration) (penalty_damping ⊗ relative_vel) in
        if gt penetration zero_w
        then neg (total ⊗ tanh_smooth (penetration ⊗ lit 500 0) one) ⊗ cos angle
        else zero_w

    abbrev penetration_of : Launch W → W
    penetration_of l = l.arrow_pos ⊖ get_string_position_at_time cb l.t draw_length

    unfoldable pub launch_acceleration : ℕ → Launch W → W
    launch_acceleration i l =
        let force = drive_force (penetration_of l) (l.arrow_vel ⊖ string_velocity i l.t) in
        (force ⊕ neg gravity ⊗ sin angle ⊗ cb.arrow_mass) ⊘ cb.arrow_mass

    unfoldable pub launch_point : W → Launch W → TrajectoryPoint W
    launch_point acceleration l =
        let way = draw_length ⊖ l.arrow_pos in
        record {
          time_step = l.t;
          position = vec3 (way ⊗ cos angle) (lit 15 1 ⊕ way ⊗ sin angle) zero_w;
          velocity = vec3 (neg l.arrow_vel ⊗ cos angle) (neg l.arrow_vel ⊗ sin angle) zero_w;
          acceleration = vec3 (acceleration ⊗ cos angle) (acceleration ⊗ sin angle) zero_w;
          drag_force = zero_w;
          lift_force = zero_w;
        }

    unfoldable pub launch_step : W → Launch W → Launch W
    launch_step acceleration l =
        let vel = l.arrow_vel ⊕ acceleration ⊗ dt in
        record {
          arrow_pos = l.arrow_pos ⊕ vel ⊗ dt;
          arrow_vel = vel;
          t = l.t ⊕ dt;
          max_acceleration = max l.max_acceleration (abs acceleration);
        }

    -- The two tests that end the loop; the penetration and the string are those of the round's start.
    unfoldable pub separates : ℕ → Launch W → Launch W → Bool
    separates i l l' =
        lt (penetration_of l) (neg contact_threshold) && lt l'.arrow_vel (string_velocity i l.t)
        || le l'.arrow_pos (lit 1 2)

    unfoldable pub launch_rounds : ℕ → ℕ → Launch W → Launched W
    launch_rounds zero i l = record { state = l; points = []; has_separated = false }
    launch_rounds (suc left) i l =
        let a = launch_acceleration i l in
        let p = launch_point a l in
        let l' = launch_step a l in
        let rest = launch_rounds left (i + 1) l' in
        if separates i l l'
        then record { state = l'; points = p ∷ []; has_separated = true }
        else record rest { points = p ∷ rest.points }

  -- The speed from the energy of the draw and the speed of the loop.
  unfoldable pub calibrated_velocity : CrossbowType W → W → W → W → W
  calibrated_velocity cb draw_weight draw_length arrow_vel =
      let raw = max (abs arrow_vel) zero_w in
      let total_energy = lit 5 1 ⊗ draw_weight ⊗ gravity ⊗ draw_length in
      let max_possible = sqrt (lit 2 0 ⊗ total_energy ⊘ cb.arrow_mass) in
      let target = max_possible ⊗ bow_efficiency in
      if gt raw (max_possible ⊗ lit 12 1) then target else lit 25 2 ⊗ raw ⊕ lit 75 2 ⊗ target

  abbrev pub at_rest : W → Launch W
  at_rest draw_length = record {
    arrow_pos = draw_length ⊕ lit 5 4;
    arrow_vel = zero_w;
    t = zero_w;
    max_acceleration = zero_w;
  }

  unfoldable pub simulate_launch_phase : CrossbowType W → W → W → W → W → LaunchPhaseResult W
  simulate_launch_phase cb draw_weight draw_length launch_angle dt =
      let run =
        launch_rounds cb draw_length (to_radians launch_angle) dt max_launch_steps 0
          (at_rest draw_length) in
      record {
        initial_velocity = calibrated_velocity cb draw_weight draw_length run.state.arrow_vel;
        max_string_acceleration = run.state.max_acceleration;
        contact_phase_time = run.state.t;
        launch_trajectory = run.points;
      }

  -- The time after `n` rounds, as the loop adds it up.
  abbrev pub time_after : W → ℕ → W → W
  time_after dt zero t = t
  time_after dt (suc n) t = time_after dt n (t ⊕ dt)

  -- What `left` rounds from a time leave behind: the time is that of the points recorded, which are as
  -- many as the rounds unless the arrow separated before.
  abbrev pub Timed : W → ℕ → W → Launched W → Type 0
  Timed dt left t run =
      (run.state.t ≡ time_after dt (length run.points) t)
      × (length run.points ≤ left)
      × ((run.has_separated ≡ true) ⊎ (length run.points ≡ left))

  round-Timed :
      (dt t : W) (left : ℕ) (ends : Bool) (p : TrajectoryPoint W) (l' : Launch W)
      (rest : Launched W)
      → l'.t ≡ t ⊕ dt
      → Timed dt left (t ⊕ dt) rest
      → Timed dt (suc left) t (
          if ends
          then record { state = l'; points = p ∷ []; has_separated = true }
          else record rest { points = p ∷ rest.points })
  round-Timed dt t left true p l' rest e r = (e, omega arith, inl refl)
  round-Timed dt t left false p l' rest e (r, b, inl s) = (r, omega arith, inl s)
  round-Timed dt t left false p l' rest e (r, b, inr n) = (r, omega arith, inr (omega arith))

  module _ (cb : CrossbowType W) (draw_length angle dt : W) where
    launch_rounds-Timed :
        (left i : ℕ) (l : Launch W)
        → Timed dt left l.t (launch_rounds cb draw_length angle dt left i l)
    unfolding launch_rounds launch_step
    launch_rounds-Timed zero i l = (refl, omega arith, inr refl)
    launch_rounds-Timed (suc left) i l =
        round-Timed dt l.t left _ _ _ _ refl (launch_rounds-Timed left (i + 1) _)

  -- The contact time of a launch is that of the rounds it recorded, a point for each, and there are at
  -- most as many as the bound.
  pub simulate_launch_phase-time :
      (cb : CrossbowType W) (draw_weight draw_length launch_angle dt : W)
      → let result = simulate_launch_phase cb draw_weight draw_length launch_angle dt in
        (result.contact_phase_time ≡ time_after dt (length result.launch_trajectory) zero_w)
        × (length result.launch_trajectory ≤ max_launch_steps)
  unfolding simulate_launch_phase
  simulate_launch_phase-time cb draw_weight draw_length launch_angle dt =
      let timed =
        launch_rounds-Timed cb draw_length (to_radians launch_angle) dt max_launch_steps 0
          (at_rest draw_length) in
      (timed.0, timed.1)
