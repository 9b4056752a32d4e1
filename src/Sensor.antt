-- ===== src/Sensor.antt =====
-- backend/include/common.h: the records that the modules exchange. A time point is a number, an
-- identifier a `uint32_t`; a `double` is a value of the parameter `W`.
pub mod History
use Prim.Native.String.{String}
use ai_solo_coder_task_b.Prelude.{ℕ, List}

pub record SensorData {ℓ} (W : Type ℓ) : Type ℓ where
  pub timestamp : ℕ
  pub crossbow_id : ℕ
  pub crossbow_name : String
  pub bow_string_tension : W
  pub bow_arm_deformation : W
  pub arrow_velocity : W
  pub range : W
  pub spread_x : W
  pub spread_y : W
  pub aim_angle : W
  pub temperature : W
  pub humidity : W
  pub wind_speed : W
  pub wind_direction : W

pub record Vec3 {ℓ} (W : Type ℓ) : Type ℓ where
  pub x : W
  pub y : W
  pub z : W

pub record TrajectoryPoint {ℓ} (W : Type ℓ) : Type ℓ where
  pub time_step : W
  pub position : Vec3 W
  pub velocity : Vec3 W
  pub acceleration : Vec3 W
  pub drag_force : W
  pub lift_force : W

pub record CrossbowType {ℓ} (W : Type ℓ) : Type ℓ where
  pub id : ℕ
  pub name : String
  pub dynasty : String
  pub draw_weight : W
  pub bow_length : W
  pub string_length : W
  pub arrow_mass : W
  pub effective_range : W
  pub max_range : W

pub record Alert {ℓ} (W : Type ℓ) : Type ℓ where
  pub timestamp : ℕ
  pub crossbow_id : ℕ
  pub crossbow_name : String
  pub alert_type : String
  pub severity : String
  pub message : String
  pub threshold_value : W
  pub actual_value : W

pub record ShotRecord {ℓ} (W : Type ℓ) : Type ℓ where
  pub timestamp : ℕ
  pub crossbow_id : ℕ
  pub shot_id : String
  pub initial_velocity : W
  pub launch_angle : W
  pub max_height : W
  pub flight_time : W
  pub impact_point : Vec3 W
  pub impact_velocity : W
  pub kinetic_energy : W

pub record AccuracyAnalysis {ℓ} (W : Type ℓ) : Type ℓ where
  pub crossbow_id : ℕ
  pub crossbow_name : String
  pub analysis_date : ℕ
  pub total_shots : ℕ
  pub mean_spread_x : W
  pub mean_spread_y : W
  pub std_spread_x : W
  pub std_spread_y : W
  pub circular_error_probable : W
  pub mean_velocity : W
  pub std_velocity : W
  pub mean_range : W
  pub optimal_sight_scale : W
  pub sight_adjustments : List (W × W)
