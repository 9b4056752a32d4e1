-- ===== src/VirtualShooting.antt =====
-- backend/src/modules/virtual_shooting.cpp and its header: a shooting session with targets, an aim and
-- the shots fired. The flight of an arrow is `DynamicsModel`'s, which enters through the interface
-- `Ballistics` and fills it as `ballistics`; the two draws from the normal distribution are an argument of `fire`.
pub mod Session
pub mod Fire
mod Tests
use ai_solo_coder_task_b.Prelude.{
  ℕ, suc, ◌+◌, ◌%◌, ◌^◌, Bool, true, false, ◌||◌, not, Option, none, some, List, [], ◌∷◌, ◌++◌, leb,
  ltb, ◌==◌, if◌then◌else◌, length,
}
use ai_solo_coder_task_b.Prelude.Int.{pos}
use ai_solo_coder_task_b.Double.{Double, gt, max, clamp}
use ai_solo_coder_task_b.DynamicsModel.Flight.{simulate_trajectory as model_trajectory}
use ai_solo_coder_task_b.DynamicsModel.Results.{
  calculate_initial_velocity as model_velocity, calculate_shot_results as model_results,
}
use ai_solo_coder_task_b.Sensor.{CrossbowType, Vec3, TrajectoryPoint, ShotRecord}

pub record VirtualTarget (W : Type 0) : Type 0 where
  pub id : ℕ
  pub x_m : W
  pub y_m : W
  pub radius_m : W
  pub health : W
  pub destroyed : Bool

pub record VirtualShot (W : Type 0) : Type 0 where
  pub id : ℕ
  pub aim_x : W
  pub aim_y : W
  pub actual_x : W
  pub actual_y : W
  pub launch_angle : W
  pub velocity : W
  pub score : W
  pub hit_target_id : ℕ

pub record ShootingSessionConfig (W : Type 0) : Type 0 where
  pub max_targets : ℕ
  pub target_radius_min_m : W
  pub target_radius_max_m : W
  pub min_distance_m : W
  pub max_distance_m : W
  pub time_limit_s : W
  pub arrow_mass_g : W
  pub crossbow_type : CrossbowType W

pub record ShootingStats (W : Type 0) : Type 0 where
  pub total_shots : ℕ
  pub hits : ℕ
  pub misses : ℕ
  pub score : W
  pub accuracy_pct : W
  pub avg_velocity_ms : W
  pub avg_distance_m : W
  pub destroyed_count : ℕ

-- The members but the random generator.
pub record VirtualShooting (W : Type 0) : Type 0 where
  pub session_active : Bool
  pub config : ShootingSessionConfig W
  pub targets : List (VirtualTarget W)
  pub shots : List (VirtualShot W)
  pub current_aim_x : W
  pub current_aim_y : W
  pub next_target_id : ℕ
  pub next_shot_id : ℕ
  pub total_velocity_sum : W
  pub total_distance_sum : W

-- What `fire` uses of `DynamicsModel`.
pub record Ballistics (W : Type 0) : Type 0 where
  pub calculate_initial_velocity : CrossbowType W → W → W → W → W
  pub simulate_trajectory : CrossbowType W → W → W → W → W → W → List (TrajectoryPoint W)
  pub calculate_shot_results : CrossbowType W → List (TrajectoryPoint W) → ShotRecord W

-- `n++` on a `uint32_t`.
abbrev pub next_uint32 : ℕ → ℕ
next_uint32 n = (n + 1) % 2 ^ 32

-- The targets without those of the identifier; `remove_if` and `erase`.
pub drop_id : {W : Type 0} → ℕ → List (VirtualTarget W) → List (VirtualTarget W)
drop_id id [] = []
drop_id id (t ∷ ts) = let rest = drop_id id ts in if t.id == id then rest else t ∷ rest

pub has_id : {W : Type 0} → ℕ → List (VirtualTarget W) → Bool
has_id id [] = false
has_id id (t ∷ ts) = t.id == id || has_id id ts

-- The target that a shot hits, as it was left, and the targets after it.
pub record Impact (W : Type 0) : Type 0 where
  pub hit : Option (VirtualTarget W)
  pub left : List (VirtualTarget W)

module _ {W : Type 0} ⦃d : Double W⦄ where
  open d use {lit, neg, add, sub, mul, div, lt, le, sqrt, atan2, of_int}

  abbrev zero_m : W
  zero_m = lit 0 0

  pub start_session : ShootingSessionConfig W → VirtualShooting W → VirtualShooting W
  start_session config s = record {
    session_active = true;
    config = config;
    targets = [];
    shots = [];
    current_aim_x = zero_m;
    current_aim_y = zero_m;
    next_target_id = 1;
    next_shot_id = 1;
    total_velocity_sum = zero_m;
    total_distance_sum = zero_m;
  }

  -- `reset`, with the default configuration.
  pub reset : ShootingSessionConfig W → VirtualShooting W → VirtualShooting W
  unfolding start_session
  reset defaults s = record (start_session defaults s) { session_active = false }

  pub compute_distance : W → W → W
  compute_distance x y = sqrt (add (mul x x) (mul y y))

  abbrev out_of_reach : ShootingSessionConfig W → W → Bool
  out_of_reach c dist = lt dist c.min_distance_m || gt dist c.max_distance_m

  abbrev new_target : W → W → W → W → VirtualShooting W → VirtualTarget W
  new_target x y radius health s =
      let health' = max zero_m health in
      record {
        id = s.next_target_id;
        x_m = x;
        y_m = y;
        radius_m = clamp radius s.config.target_radius_min_m s.config.target_radius_max_m;
        health = health';
        destroyed = le health' zero_m;
      }

  pub add_target : W → W → W → W → VirtualShooting W → Bool × VirtualShooting W
  unfolding compute_distance
  add_target x y radius health s =
      if not s.session_active
      then (false, s)
      else if leb s.config.max_targets (length s.targets)
      then (false, s)
      else if out_of_reach s.config (compute_distance x y)
      then (false, s)
      else (
        true,
        record s {
          targets = s.targets ++ (new_target x y radius health s ∷ []);
          next_target_id = next_uint32 s.next_target_id;
        },
      )

  pub remove_target : ℕ → VirtualShooting W → Bool × VirtualShooting W
  unfolding drop_id has_id
  remove_target id s =
      if not s.session_active
      then (false, s)
      else if not (has_id id s.targets)
      then (false, s)
      else (true, record s { targets = drop_id id s.targets })

  pub aim : W → W → VirtualShooting W → VirtualShooting W
  aim x y s = record s { current_aim_x = x; current_aim_y = y }

  pub validate_parameters : ShootingSessionConfig W → W → W → W → W → Bool
  unfolding compute_distance
  validate_parameters c x y velocity angle =
      if out_of_reach c (compute_distance x y)
      then false
      else if lt velocity (lit 10 0) || gt velocity (lit 200 0)
      then false
      else if lt angle (lit 0 0) || gt angle (lit 85 0)
      then false
      else true

  pub compute_aim_error : W → W
  compute_aim_error distance = add (lit 1 2) (mul (lit 2 3) distance)

  -- `calculate_score` of a target that is hit.
  pub calculate_score : VirtualTarget W → W → W
  calculate_score t distance =
      let score = lit 10 0 in
      let small =
        if lt t.radius_m (lit 15 2)
        then add score (mul (mul (sub (lit 15 2) t.radius_m) (lit 5 0)) (lit 10 0))
        else score in
      if gt distance (lit 50 0) then add small (mul (sub distance (lit 50 0)) (lit 1 1)) else small

  -- One hit: the health falls by 1, and the target is destroyed at 0.
  abbrev pub damage : VirtualTarget W → VirtualTarget W
  damage t =
      let health' = sub t.health (lit 1 0) in
      record t { health = health'; destroyed = if le health' zero_m then true else t.destroyed }

  abbrev pub is_hit : W → W → VirtualTarget W → Bool
  is_hit x y t =
      let dx = sub x t.x_m in
      let dy = sub y t.y_m in le (sqrt (add (mul dx dx) (mul dy dy))) t.radius_m

  -- The loop over the targets: the first one that stands and is hit.
  pub strike : W → W → List (VirtualTarget W) → Impact W
  strike x y [] = record { hit = none; left = [] }
  strike x y (t ∷ ts) =
      let rest = strike x y ts in
      let passed : Impact W = record { hit = rest.hit; left = t ∷ rest.left } in
      if t.destroyed
      then passed
      else if is_hit x y t
      then record { hit = some (damage t); left = damage t ∷ ts }
      else passed

  abbrev pub blank_shot : VirtualShooting W → VirtualShot W
  blank_shot s = record {
    id = s.next_shot_id;
    aim_x = s.current_aim_x;
    aim_y = s.current_aim_y;
    actual_x = zero_m;
    actual_y = zero_m;
    launch_angle = zero_m;
    velocity = zero_m;
    score = zero_m;
    hit_target_id = 0;
  }

  abbrev pub push_shot : VirtualShot W → VirtualShooting W → VirtualShot W × VirtualShooting W
  push_shot shot s =
      (shot, record s { shots = s.shots ++ (shot ∷ []); next_shot_id = next_uint32 s.next_shot_id })

  abbrev pub score_hit : Option (VirtualTarget W) → W → VirtualShot W → VirtualShot W
  score_hit none distance shot = shot
  score_hit (some t) distance shot = record shot {
    hit_target_id = t.id;
    score = calculate_score t distance;
  }

  abbrev degrees : W → W → W
  degrees y x = div (mul (atan2 y x) (lit 180 0)) pi
    where
      pi : W
      pi = lit 314159265358979323846 20

  -- The loop over the shots in `get_stats`.
  pub tally : List (VirtualShot W) → ShootingStats W → ShootingStats W
  tally [] stats = stats
  tally (shot ∷ shots) stats =
      let hit = not (shot.hit_target_id == 0) in
      tally shots (record stats {
        hits = if hit then next_uint32 stats.hits else stats.hits;
        misses = if hit then stats.misses else next_uint32 stats.misses;
        score = add stats.score shot.score;
      })

  -- The loop over the targets.
  pub count_destroyed : List (VirtualTarget W) → ℕ → ℕ
  count_destroyed [] n = n
  count_destroyed (t ∷ ts) n = count_destroyed ts (if t.destroyed then next_uint32 n else n)

  -- `a / total` where there is a shot.
  abbrev per_shot : ℕ → W → W
  per_shot total a = if ltb 0 total then div a (of_int (pos total)) else zero_m

  abbrev pub blank_stats : ℕ → ShootingStats W
  blank_stats total = record {
    total_shots = total;
    hits = 0;
    misses = 0;
    score = zero_m;
    accuracy_pct = zero_m;
    avg_velocity_ms = zero_m;
    avg_distance_m = zero_m;
    destroyed_count = 0;
  }

  pub get_stats : VirtualShooting W → ShootingStats W
  unfolding tally count_destroyed
  get_stats s =
      let total = length s.shots % 2 ^ 32 in
      let stats = tally s.shots (blank_stats total) in
      record stats {
        accuracy_pct =
            if ltb 0 total
            then mul (div (of_int (pos stats.hits)) (of_int (pos total))) (lit 100 0)
            else zero_m;
        avg_velocity_ms = per_shot total s.total_velocity_sum;
        avg_distance_m = per_shot total s.total_distance_sum;
        destroyed_count = count_destroyed s.targets 0;
      }

  module _ (model : Ballistics W) where
    open model use {calculate_initial_velocity, simulate_trajectory, calculate_shot_results}

    -- A shot whose parameters are valid; `errors` are the draws with mean 0 at a deviation.
    pub shoot : (W → W × W) → W → W → W → VirtualShooting W → VirtualShot W × VirtualShooting W
    unfolding strike compute_aim_error calculate_score
    shoot errors distance angle velocity s =
        let cb = s.config.crossbow_type in
        let (error_x, error_y) = errors (compute_aim_error distance) in
        let radians = div (mul angle (lit 314159265358979323846 20)) (lit 180 0) in
        let path = simulate_trajectory cb velocity radians zero_m zero_m (lit 1 3) in
        let results = calculate_shot_results cb path in
        let x = add results.impact_point.x error_x in
        let y = add results.impact_point.y error_y in
        let impact = strike x y s.targets in
        let flown : VirtualShot W = record (blank_shot s) {
          launch_angle = angle;
          velocity = velocity;
          actual_x = x;
          actual_y = y;
        } in
        push_shot (score_hit impact.hit distance flown) (record s {
          targets = impact.left;
          total_velocity_sum = add s.total_velocity_sum velocity;
          total_distance_sum = add s.total_distance_sum distance;
        })

    pub fire : (W → W × W) → VirtualShooting W → VirtualShot W × VirtualShooting W
    unfolding shoot validate_parameters compute_distance
    fire errors s =
        if not s.session_active
        then push_shot (blank_shot s) s
        else let cb = s.config.crossbow_type in
          let distance = compute_distance s.current_aim_x s.current_aim_y in
          let angle =
            if gt distance zero_m then degrees s.current_aim_y s.current_aim_x else lit 45 0 in
          let velocity =
            calculate_initial_velocity cb cb.draw_weight (mul cb.bow_length (lit 75 2))
              s.config.arrow_mass_g in
          if validate_parameters s.config s.current_aim_x s.current_aim_y velocity angle
          then shoot errors distance angle velocity s
          else push_shot (blank_shot s) s

-- The model that `fire` makes of the session's crossbow; `fresh` is the shot record as declared.
abbrev pub ballistics : {W : Type 0} → ⦃d : Double W⦄ → ShotRecord W → Ballistics W
ballistics fresh = record {
  calculate_initial_velocity = λ cb. model_velocity;
  simulate_trajectory = model_trajectory;
  calculate_shot_results = λ cb path. model_results cb fresh path;
}
