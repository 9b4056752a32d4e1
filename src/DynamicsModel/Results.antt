-- ===== src/DynamicsModel/Results.antt =====
-- backend/src/dynamics_model.cpp: the record of a shot, from the points of its flight.
use ai_solo_coder_task_b.Prelude.{◌≡◌, refl, Bool, true, false, List, [], ◌∷◌, if◌then◌else◌, All}
use ai_solo_coder_task_b.Double.{
  Double, IsOrdered, IsNumber, ◌⊕◌, ◌⊗◌, ◌⊘◌, gt, to_radians, to_degrees,
}
use ai_solo_coder_task_b.Sensor.{TrajectoryPoint, CrossbowType, ShotRecord}
use ai_solo_coder_task_b.DynamicsModel.Forces.{zero_w, vec3, norm, gravity, bow_efficiency}

module _ {W : Type 0} ⦃d : Double W⦄ where
  open d use {lit, le, sqrt, sin, atan2, pow}

  unfoldable pub calculate_initial_velocity : W → W → W → W
  calculate_initial_velocity draw_weight draw_length arrow_mass =
      let total_energy = lit 5 1 ⊗ draw_weight ⊗ gravity ⊗ draw_length in
      let kinetic_energy = total_energy ⊗ bow_efficiency in
      sqrt (lit 2 0 ⊗ kinetic_energy ⊘ arrow_mass)

  unfoldable pub calculate_launch_acceleration : CrossbowType W → W → W → W
  calculate_launch_acceleration cb string_tension string_stretch =
      string_tension ⊗ sin (string_stretch ⊘ cb.string_length) ⊘ cb.arrow_mass

  unfoldable pub calculate_kinetic_energy : W → W → W
  calculate_kinetic_energy velocity mass = lit 5 1 ⊗ mass ⊗ velocity ⊗ velocity

  unfoldable pub calculate_expected_spread : CrossbowType W → W → W → W → W × W
  calculate_expected_spread cb range velocity_std_dev angle_std_dev =
      let range_std_dev =
        range
        ⊗ sqrt (
            pow (lit 2 0 ⊗ velocity_std_dev ⊘ (cb.arrow_mass ⊗ lit 1 2)) (lit 2 0)
            ⊕ pow (to_radians angle_std_dev) (lit 2 0)) in
      let lateral_std_dev = range ⊗ to_radians (angle_std_dev ⊗ lit 5 1) in
      (range_std_dev ⊗ lit 3 1, lateral_std_dev ⊗ lit 3 1)

  -- The loop that finds the highest point.
  unfoldable pub highest : W → List (TrajectoryPoint W) → W
  highest h [] = h
  highest h (p ∷ ps) = highest (if gt p.position.y h then p.position.y else h) ps

  -- `trajectory.back()` of a list that starts with a point.
  abbrev pub last : TrajectoryPoint W → List (TrajectoryPoint W) → TrajectoryPoint W
  last p [] = p
  last p (q ∷ qs) = last q qs

  -- `blank` is the record as declared: the identifier and the time it is given, and what the members
  -- that are not set happen to hold.
  unfoldable pub calculate_shot_results :
      CrossbowType W → ShotRecord W → List (TrajectoryPoint W) → ShotRecord W
  calculate_shot_results cb blank [] = record blank {
    max_height = zero_w;
    flight_time = zero_w;
    impact_point = vec3 zero_w zero_w zero_w;
    impact_velocity = zero_w;
    kinetic_energy = zero_w;
  }
  calculate_shot_results cb blank (p ∷ ps) =
      let end = last p ps in
      let v = p.velocity in
      record blank {
        initial_velocity = norm v;
        max_height = highest zero_w (p ∷ ps);
        flight_time = end.time_step;
        impact_point = end.position;
        impact_velocity = norm end.velocity;
        kinetic_energy = calculate_kinetic_energy (norm end.velocity) cb.arrow_mass;
        launch_angle = to_degrees (atan2 v.y (sqrt (v.x ⊗ v.x ⊕ v.z ⊗ v.z)));
      }

  -- A point whose height is a number at most `h`.
  abbrev pub IsUnder : W → TrajectoryPoint W → Type 0
  IsUnder h p = le p.position.y h ≡ true

  abbrev pub HasHeight : TrajectoryPoint W → Type 0
  HasHeight p = IsNumber p.position.y

  module _ (laws : IsOrdered W) where
    -- One round: the height stays a number, at least what it was, and at least the point's.
    raised :
        (h y : W) (b : Bool)
        → gt y h ≡ b
        → IsNumber h
        → IsNumber y
        → let r = if b then y else h in IsNumber r × (le h r ≡ true) × (le y r ≡ true)
    raised h y true g n m = (m, laws.lt_le h y g, m)
    raised h y false g n m = (n, n, (laws.not_lt h y n m).0 g)

    highest-bounds :
        (h : W) (ps : List (TrajectoryPoint W))
        → IsNumber h
        → All HasHeight ps
        → (le h (highest h ps) ≡ true) × All (IsUnder (highest h ps)) ps
    unfolding highest
    highest-bounds h [] n a = (n, tt)
    highest-bounds h (p ∷ ps) n a =
        let y = p.position.y in
        let (n', up, over) = raised h y (gt y h) refl n a.0 in
        let (above, rest) = highest-bounds (if gt y h then y else h) ps n' a.1 in
        (laws.le_trans _ _ _ up above, (laws.le_trans _ _ _ over above, rest))

    -- No point of a flight is higher than the height recorded, which is at least 0, provided that the
    -- heights are numbers.
    pub calculate_shot_results-max_height :
        (cb : CrossbowType W) (blank : ShotRecord W) (path : List (TrajectoryPoint W))
        → All HasHeight path
        → let h = (calculate_shot_results cb blank path).max_height in
          (le zero_w h ≡ true) × All (IsUnder h) path
    unfolding calculate_shot_results
    calculate_shot_results-max_height cb blank [] a = (laws.lit_number 0 0, tt)
    calculate_shot_results-max_height cb blank (p ∷ ps) a =
        highest-bounds zero_w (p ∷ ps) (laws.lit_number 0 0) a
