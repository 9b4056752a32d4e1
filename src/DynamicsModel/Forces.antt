-- ===== src/DynamicsModel/Forces.antt =====
-- backend/src/dynamics_model.cpp: drag, lift, contact and the bow's geometry.
use ai_solo_coder_task_b.Prelude.{if◌then◌else◌}
use ai_solo_coder_task_b.Double.{Double, ◌⊕◌, ◌⊖◌, ◌⊗◌, ◌⊘◌, gt, max, min, clamp, pi}
use ai_solo_coder_task_b.Sensor.{Vec3, CrossbowType}

module _ {W : Type 0} ⦃d : Double W⦄ where
  open d use {lit, neg, lt, le, sqrt, exp, tanh, cos, atan2, abs}

  abbrev pub zero_w : W
  zero_w = lit 0 0

  abbrev pub one : W
  one = lit 1 0

  -- The constants of the class.
  abbrev pub gravity : W
  gravity = lit 981 2

  abbrev pub air_density : W
  air_density = lit 1225 3

  abbrev pub arrow_reference_area : W
  arrow_reference_area = lit 25 5

  abbrev pub bow_efficiency : W
  bow_efficiency = lit 75 2

  abbrev pub sound_speed : W
  sound_speed = lit 343 0

  abbrev pub penalty_stiffness : W
  penalty_stiffness = lit 800000 0

  abbrev pub penalty_damping : W
  penalty_damping = lit 5000 0

  abbrev pub contact_threshold : W
  contact_threshold = lit 1 3

  abbrev pub max_penalty_force : W
  max_penalty_force = lit 5000 0

  abbrev pub vec3 : W → W → W → Vec3 W
  vec3 x y z = record { x = x; y = y; z = z }

  -- `sqrt(v.x * v.x + v.y * v.y + v.z * v.z)`.
  abbrev pub norm : Vec3 W → W
  norm v = sqrt (v.x ⊗ v.x ⊕ v.y ⊗ v.y ⊕ v.z ⊗ v.z)

  unfoldable pub smooth_step : W → W → W → W
  smooth_step x edge0 edge1 =
      let x' = clamp ((x ⊖ edge0) ⊘ (edge1 ⊖ edge0)) zero_w one in
      x' ⊗ x' ⊗ (lit 3 0 ⊖ lit 2 0 ⊗ x')

  unfoldable pub tanh_smooth : W → W → W
  tanh_smooth x alpha = tanh (alpha ⊗ x)

  unfoldable pub subsonic_drag_coeff : W → W
  subsonic_drag_coeff mach = let m2 = mach ⊗ mach in lit 105 2 ⊕ lit 15 2 ⊗ m2 ⊕ lit 8 2 ⊗ m2 ⊗ m2

  unfoldable pub transonic_drag_coeff : W → W
  transonic_drag_coeff mach =
      let sigma = lit 8 2 in
      let gaussian = exp (neg ((mach ⊖ one) ⊗ (mach ⊖ one)) ⊘ (lit 2 0 ⊗ sigma ⊗ sigma)) in
      let base = subsonic_drag_coeff (min mach (lit 8 1)) in
      base ⊕ (lit 215 2 ⊖ base) ⊗ gaussian ⊗ lit 12 1

  unfoldable pub supersonic_drag_coeff : W → W
  supersonic_drag_coeff mach =
      let inv_m = one ⊘ mach in
      let m2 = mach ⊗ mach in
      let cd_wave = lit 85 2 ⊗ sqrt (max zero_w (m2 ⊖ one)) ⊘ m2 in
      let cd_base = lit 65 2 ⊕ lit 25 2 ⊗ inv_m in cd_base ⊕ cd_wave

  -- The mixture of the three laws between Mach 0.8 and 1.2.
  unfoldable pub blended_drag_coeff : W → W
  blended_drag_coeff mach =
      let w1 = one ⊖ smooth_step mach (lit 8 1) (lit 9 1) in
      let w2 = smooth_step mach (lit 11 1) (lit 12 1) in
      let w_mid = one ⊖ w1 ⊖ w2 in
      let sub = subsonic_drag_coeff (min mach (lit 8 1)) in
      let trans = transonic_drag_coeff mach in
      let super = supersonic_drag_coeff (max mach (lit 12 1)) in
      w1 ⊗ sub ⊕ w_mid ⊗ trans ⊕ w2 ⊗ super

  unfoldable pub calculate_drag_coefficient : W → W
  calculate_drag_coefficient mach =
      if lt mach zero_w
      then one
      else if lt mach (lit 8 1)
      then subsonic_drag_coeff mach
      else if lt mach (lit 12 1)
      then blended_drag_coeff mach
      else supersonic_drag_coeff mach

  unfoldable pub calculate_lift_coefficient : W → W → W
  calculate_lift_coefficient mach alpha =
      let mach_correction =
        if lt mach (lit 8 1)
        then one ⊘ sqrt (one ⊖ mach ⊗ mach)
        else if lt mach (lit 12 1)
        then lit 15 1
        else lit 2 0 ⊘ (mach ⊗ sqrt (mach ⊗ mach ⊖ one)) in
      let stall_alpha = lit 25 2 in
      let excess = abs alpha ⊖ stall_alpha in
      let stall_factor =
        if gt (abs alpha) stall_alpha then exp (neg excess ⊗ excess ⊗ lit 25 0) else one in
      (lit 5 2 ⊕ lit 45 1 ⊗ alpha) ⊗ mach_correction ⊗ stall_factor

  -- Stiffness and damping, between 0 and the greatest force of the constants.
  abbrev pub limited_force : W → W → W
  limited_force penalty_force damping_force =
      max (min (penalty_force ⊕ damping_force) max_penalty_force) zero_w

  unfoldable pub calculate_penalty_contact_force : W → W → W → Vec3 W
  calculate_penalty_contact_force depth relative_velocity contact_normal =
      let penalty = penalty_stiffness ⊗ depth in
      let damping = penalty_damping ⊗ relative_velocity in
      let smooth = smooth_step depth (neg contact_threshold) zero_w in
      let outside = lt depth zero_w in
      let total =
        limited_force (if outside then penalty ⊗ smooth else penalty)
          (if outside then damping ⊗ smooth else damping) in
      if lt depth (neg contact_threshold)
      then vec3 zero_w zero_w zero_w
      else vec3 (total ⊗ tanh_smooth (depth ⊗ lit 500 0) one ⊗ contact_normal) zero_w zero_w

  unfoldable pub calculate_drag_force : Vec3 W → W → Vec3 W
  calculate_drag_force velocity density =
      let speed = norm velocity in
      let cd = calculate_drag_coefficient (speed ⊘ sound_speed) in
      let drag = lit 5 1 ⊗ density ⊗ speed ⊗ speed ⊗ cd ⊗ arrow_reference_area in
      if lt speed (lit 1 3)
      then vec3 zero_w zero_w zero_w
      else vec3 (neg drag ⊗ velocity.x ⊘ speed) (neg drag ⊗ velocity.y ⊘ speed)
          (neg drag ⊗ velocity.z ⊘ speed)

  unfoldable pub calculate_lift_force : Vec3 W → W → Vec3 W
  calculate_lift_force velocity density =
      let speed = norm velocity in
      let horizontal = sqrt (velocity.x ⊗ velocity.x ⊕ velocity.z ⊗ velocity.z) in
      let cl = calculate_lift_coefficient (speed ⊘ sound_speed) (atan2 velocity.y horizontal) in
      let lift = lit 5 1 ⊗ density ⊗ speed ⊗ speed ⊗ cl ⊗ arrow_reference_area in
      if lt speed (lit 1 3)
      then vec3 zero_w zero_w zero_w
      else if lt horizontal (lit 1 3)
      then vec3 zero_w zero_w zero_w
      else vec3 (neg lift ⊗ velocity.y ⊗ velocity.x ⊘ (speed ⊗ horizontal))
          (lift ⊗ horizontal ⊘ speed) (neg lift ⊗ velocity.y ⊗ velocity.z ⊘ (speed ⊗ horizontal))

  unfoldable pub calculate_gravitational_force : W → Vec3 W
  calculate_gravitational_force mass = vec3 zero_w (neg mass ⊗ gravity) zero_w

  unfoldable pub get_string_position_at_time : CrossbowType W → W → W → W
  get_string_position_at_time cb t draw_length =
      let natural_freq = sqrt (cb.draw_weight ⊗ gravity ⊘ draw_length ⊘ cb.arrow_mass) in
      max zero_w (draw_length ⊗ cos (natural_freq ⊗ t))

  unfoldable pub get_bow_arm_bending_angle : CrossbowType W → W → W
  get_bow_arm_bending_angle cb string_displacement =
      let normalized = clamp (string_displacement ⊘ (cb.string_length ⊗ lit 6 1)) zero_w one in
      pi ⊘ lit 3 0 ⊗ (one ⊖ cos (lit 157079632679489661923 20 ⊗ normalized))

  unfoldable pub get_bow_arm_deformation : CrossbowType W → W → W
  get_bow_arm_deformation cb string_displacement =
      let bending = get_bow_arm_bending_angle cb string_displacement in
      cb.bow_length ⊘ lit 2 0 ⊗ (one ⊖ cos (bending ⊘ lit 2 0))
