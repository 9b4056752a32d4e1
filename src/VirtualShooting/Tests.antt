-- ===== src/VirtualShooting/Tests.antt =====
-- A session with a target straight ahead, and the theorems at it.
use ai_solo_coder_task_b.Prelude.{ℕ, ◌≡◌, refl, true, false, [], ◌∷◌, arith}
use ai_solo_coder_task_b.Prelude.Int.{ℤ}
use ai_solo_coder_task_b.Double.Fixed.{fixed}
use ai_solo_coder_task_b.Sensor.{CrossbowType, Vec3}
use ai_solo_coder_task_b.Sensor.{ShotRecord}
use ai_solo_coder_task_b.VirtualShooting.{
  ballistics, VirtualTarget, VirtualShooting, ShootingSessionConfig, Ballistics, start_session,
  add_target, aim, fire, strike, get_stats,
}
use ai_solo_coder_task_b.VirtualShooting.Session.{IsSession, fire-IsSession}
use ai_solo_coder_task_b.VirtualShooting.Fire.{Struck, strike-Struck}

abbrev m : ℕ → ℤ
m n = fixed.lit n 0

abbrev crossbow : CrossbowType ℤ
crossbow = record {
  id = 1;
  name = "n";
  dynasty = "d";
  draw_weight = m 80;
  bow_length = m 1;
  string_length = m 1;
  arrow_mass = m 1;
  effective_range = m 100;
  max_range = m 200;
}

abbrev config : ShootingSessionConfig ℤ
config = record {
  max_targets = 2;
  target_radius_min_m = fixed.lit 5 2;
  target_radius_max_m = m 1;
  min_distance_m = m 5;
  max_distance_m = m 100;
  time_limit_s = m 120;
  arrow_mass_g = m 30;
  crossbow_type = crossbow;
}

abbrev origin : Vec3 ℤ
origin = record { x = m 0; y = m 0; z = m 0 }

-- A shot that lands 20 m ahead.
abbrev ahead : ShotRecord ℤ
ahead = record {
  timestamp = 0;
  crossbow_id = 1;
  shot_id = "s";
  initial_velocity = m 60;
  launch_angle = m 0;
  max_height = m 0;
  flight_time = m 0;
  impact_point = record { x = m 20; y = m 0; z = m 0 };
  impact_velocity = m 0;
  kinetic_energy = m 0;
}

-- Every arrow leaves at 60 m/s and lands there.
abbrev straight : Ballistics ℤ
straight = record {
  calculate_initial_velocity = λ cb w l a. m 60;
  simulate_trajectory = λ cb v a x y t. [];
  calculate_shot_results = λ cb path. ahead;
}

abbrev steady : ℤ → ℤ × ℤ
steady deviation = (m 0, m 0)

abbrev empty : VirtualShooting ℤ
empty = record {
  session_active = false;
  config = config;
  targets = [];
  shots = [];
  current_aim_x = m 0;
  current_aim_y = m 0;
  next_target_id = 1;
  next_shot_id = 1;
  total_velocity_sum = m 0;
  total_distance_sum = m 0;
}

unfoldable begun : VirtualShooting ℤ
unfolding start_session
begun = start_session config empty

abbrev target : ℕ → ℕ → VirtualTarget ℤ
target id x = record {
  id = id;
  x_m = m x;
  y_m = m 0;
  radius_m = m 1;
  health = m 1;
  destroyed = false;
}

abbrev ready : VirtualShooting ℤ
ready = record empty {
  session_active = true;
  targets = target 1 50 ∷ target 2 20 ∷ [];
  current_aim_x = m 20;
  next_target_id = 3;
}

ready-IsSession : IsSession ready
ready-IsSession = record {
  bounded = omega arith;
  ids = (omega arith, (omega arith, tt), (omega arith, tt, tt));
  honest = (refl, (refl, tt));
}

sets_up :
    aim
      (m 20)
      (m 0)
      (add_target (m 20) (m 0) (m 1) (m 1) (add_target (m 50) (m 0) (m 1) (m 1) begun).1).1
    ≡ ready
unfolding begun add_target aim
sets_up = refl

answers : (add_target (m 2) (m 0) (m 1) (m 1) begun).0 ≡ false
unfolding begun add_target
answers = refl

destroys : (fire straight steady ready).0.hit_target_id ≡ 2
unfolding fire
destroys = refl

destroyed : (get_stats (fire straight steady ready).1).destroyed_count ≡ 1
unfolding fire get_stats
destroyed = refl

fire-IsSession_example : IsSession (fire (ballistics ahead) steady ready).1
fire-IsSession_example = fire-IsSession (ballistics ahead) steady ready ready-IsSession

strike-Struck_example : Struck (m 20) (m 0) ready.targets (strike (m 20) (m 0) ready.targets)
strike-Struck_example = strike-Struck (m 20) (m 0) ready.targets
