-- ===== src/DynamicsModel/Flight.antt =====
-- backend/src/dynamics_model.cpp: the flight, one Euler step after the other.
use ai_solo_coder_task_b.Prelude.{
  ℕ, zero, suc, ◌+◌, ◌≤◌, ◌≡◌, ◌⊎◌, inl, inr, refl, Bool, true, false, ◌&&◌, List, [], ◌∷◌, arith,
  ltb, if◌then◌else◌, length, Bool-cases,
}
use ai_solo_coder_task_b.Double.{Double, ◌⊕◌, ◌⊖◌, ◌⊗◌, ◌⊘◌, to_radians}
use ai_solo_coder_task_b.Sensor.{Vec3, TrajectoryPoint, CrossbowType}
use ai_solo_coder_task_b.DynamicsModel.Forces.{
  zero_w, vec3, norm, air_density, calculate_drag_force, calculate_lift_force,
  calculate_gravitational_force,
}

-- The variables of the loop.
pub record Flight (W : Type 0) : Type 0 where
  pub position : Vec3 W
  pub velocity : Vec3 W
  pub t : W

-- The bound on the rounds.
unfoldable pub max_steps : ℕ
max_steps = 100000

module _ {W : Type 0} ⦃d : Double W⦄ where
  open d use {lit, le, cos, sin}

  abbrev add3 : Vec3 W → Vec3 W → Vec3 W
  add3 a b = vec3 (a.x ⊕ b.x) (a.y ⊕ b.y) (a.z ⊕ b.z)

  abbrev sub3 : Vec3 W → Vec3 W → Vec3 W
  sub3 a b = vec3 (a.x ⊖ b.x) (a.y ⊖ b.y) (a.z ⊖ b.z)

  abbrev scale3 : Vec3 W → W → Vec3 W
  scale3 a k = vec3 (a.x ⊗ k) (a.y ⊗ k) (a.z ⊗ k)

  -- The point of one round.
  unfoldable pub flight_point : CrossbowType W → Vec3 W → Flight W → TrajectoryPoint W
  flight_point cb wind f =
      let relative = sub3 f.velocity wind in
      let drag = calculate_drag_force relative air_density in
      let lift = calculate_lift_force relative air_density in
      let total = add3 (add3 drag lift) (calculate_gravitational_force cb.arrow_mass) in
      record {
        time_step = f.t;
        position = f.position;
        velocity = f.velocity;
        acceleration =
            vec3 (total.x ⊘ cb.arrow_mass) (total.y ⊘ cb.arrow_mass) (total.z ⊘ cb.arrow_mass);
        drag_force = norm drag;
        lift_force = norm lift;
      }

  unfoldable pub advance : W → TrajectoryPoint W → Flight W → Flight W
  advance dt p f =
      let velocity = add3 f.velocity (scale3 p.acceleration dt) in
      record { position = add3 f.position (scale3 velocity dt); velocity = velocity; t = f.t ⊕ dt }

  -- The last point, on the ground.
  abbrev pub landed : TrajectoryPoint W → Flight W → TrajectoryPoint W
  landed p f = record p {
    time_step = f.t;
    position = record f.position { y = zero_w };
    velocity = f.velocity;
  }

  -- The loop, with `left` rounds to go, at round `i`.
  unfoldable pub fly : CrossbowType W → Vec3 W → W → ℕ → ℕ → Flight W → List (TrajectoryPoint W)
  fly cb wind dt zero i f = []
  fly cb wind dt (suc left) i f =
      let p = flight_point cb wind f in
      let f' = advance dt p f in
      let rest = fly cb wind dt left (i + 1) f' in
      if le f'.position.y zero_w && ltb 10 i then p ∷ landed p f' ∷ [] else p ∷ rest

  abbrev pub launch_state : W → W → Flight W
  launch_state initial_velocity launch_angle =
      let angle = to_radians launch_angle in
      record {
        position = vec3 zero_w (lit 15 1) zero_w;
        velocity = vec3 (initial_velocity ⊗ cos angle) (initial_velocity ⊗ sin angle) zero_w;
        t = zero_w;
      }

  unfoldable pub simulate_trajectory : CrossbowType W → W → W → W → W → W → List (TrajectoryPoint W)
  simulate_trajectory cb initial_velocity launch_angle wind_speed wind_direction time_step =
      let wind = to_radians wind_direction in
      fly cb (vec3 (wind_speed ⊗ cos wind) zero_w (wind_speed ⊗ sin wind)) time_step max_steps 0
        (launch_state initial_velocity launch_angle)

  -- The points of a flight on the ground at the last.
  abbrev pub IsDown : List (TrajectoryPoint W) → Type 0
  IsDown [] = ⊥
  IsDown (p ∷ []) = p.position.y ≡ zero_w
  IsDown (p ∷ q ∷ ps) = IsDown (q ∷ ps)

  IsDown-cons :
      (p : TrajectoryPoint W) (ps : List (TrajectoryPoint W)) → IsDown ps → IsDown (p ∷ ps)
  IsDown-cons p [] h = elim h [ ]
  IsDown-cons p (q ∷ ps) h = h

  -- What a loop of `left` rounds from round `i` records: a point for each round, or an arrow that
  -- came down after round 10.
  abbrev Recorded : ℕ → ℕ → List (TrajectoryPoint W) → Type 0
  Recorded left i ps =
      (length ps ≡ left) ⊎ (IsDown ps × (length ps ≤ left + 1) × (13 ≤ i + length ps))

  Recorded-cons :
      (left i : ℕ) (p : TrajectoryPoint W) (ps : List (TrajectoryPoint W))
      → Recorded left (i + 1) ps
      → Recorded (suc left) i (p ∷ ps)
  Recorded-cons left i p ps (inl e) = inl (omega arith)
  Recorded-cons left i p ps (inr (g, b, k)) = inr (IsDown-cons p ps g, omega arith, omega arith)

  landing :
      (b : Bool) (left i : ℕ) (p q : TrajectoryPoint W) (rest : List (TrajectoryPoint W))
      → q.position.y ≡ zero_w
      → Recorded left (i + 1) rest
      → Recorded (suc left) i (if b && ltb 10 i then p ∷ q ∷ [] else p ∷ rest)
  landing false left i p q rest z r = Recorded-cons left i p rest r
  landing true left i p q rest z r = elim (Bool-cases (ltb 10 i)) [
    | inl late ↦ rw late (inr (z, omega arith, ground arith))
    | inr early ↦ rw early (Recorded-cons left i p rest r)
  ]

  fly-Recorded :
      (cb : CrossbowType W) (wind : Vec3 W) (dt : W) (left i : ℕ) (f : Flight W)
      → Recorded left i (fly cb wind dt left i f)
  unfolding fly
  fly-Recorded cb wind dt zero i f = inl refl
  fly-Recorded cb wind dt (suc left) i f =
      landing _ left i _ _ _ refl (fly-Recorded cb wind dt left (i + 1) _)

  -- The same at round 0.
  abbrev pub Ended : ℕ → List (TrajectoryPoint W) → Type 0
  Ended rounds ps = (length ps ≡ rounds) ⊎ (IsDown ps × (length ps ≤ rounds + 1) × (13 ≤ length ps))

  Recorded-Ended :
      (rounds : ℕ) (ps : List (TrajectoryPoint W)) → Recorded rounds 0 ps → Ended rounds ps
  Recorded-Ended rounds ps (inl e) = inl e
  Recorded-Ended rounds ps (inr (g, b, k)) = inr (g, b, omega arith)

  -- A simulated flight ends: it has a point for each of the rounds allowed, or its last point is on the
  -- ground, after 13 points at the least and one more than the rounds at the most.
  pub simulate_trajectory-Ended :
      (cb : CrossbowType W) (velocity angle wind_speed wind_direction dt : W)
      → Ended max_steps (simulate_trajectory cb velocity angle wind_speed wind_direction dt)
  unfolding simulate_trajectory
  simulate_trajectory-Ended cb velocity angle wind_speed wind_direction dt =
      Recorded-Ended max_steps _ (fly-Recorded _ _ _ max_steps 0 _)
