-- ===== src/UdpReceiver/Ranges.antt =====
-- What `validate_sensor_data` accepts.
use ai_solo_coder_task_b.Prelude.{◌≡◌, ◌≢◌, ◌↔◌, true, false, ◌||◌, arith}
use ai_solo_coder_task_b.Double.{Double, IsNumber, IsOrdered, gt}
use ai_solo_coder_task_b.Sensor.{SensorData}
use ai_solo_coder_task_b.UdpReceiver.{validate_sensor_data}

module _ {W : Type 0} ⦃d : Double W⦄ where
  open d use {lit, neg, lt, le}

  -- The values that the validation looks at are numbers.
  pub record AreNumbers (x : SensorData W) : Type 0 where
    pub arrow_velocity : IsNumber x.arrow_velocity
    pub range : IsNumber x.range
    pub bow_string_tension : IsNumber x.bow_string_tension
    pub bow_arm_deformation : IsNumber x.bow_arm_deformation
    pub aim_angle : IsNumber x.aim_angle
    pub temperature : IsNumber x.temperature
    pub wind_speed : IsNumber x.wind_speed

  infix 50 ◌≼◌ ◌≺◌
  abbrev pub ◌≼◌ : W → W → Type 0
  a ≼ b = le a b ≡ true

  abbrev pub ◌≺◌ : W → W → Type 0
  a ≺ b = lt a b ≡ true

  -- The physical ranges: an identifier, metres per second, metres, newtons, metres, degrees, °C.
  pub record InRange (x : SensorData W) : Type 0 where
    pub crossbow_id : x.crossbow_id ≢ 0
    pub arrow_velocity : (lit 0 0 ≺ x.arrow_velocity) × (x.arrow_velocity ≼ lit 500 0)
    pub range : (lit 0 0 ≼ x.range) × (x.range ≼ lit 5000 0)
    pub bow_string_tension : lit 0 0 ≼ x.bow_string_tension
    pub bow_arm_deformation : lit 0 0 ≼ x.bow_arm_deformation
    pub aim_angle : (neg (lit 90 0) ≼ x.aim_angle) × (x.aim_angle ≼ lit 90 0)
    pub temperature : (neg (lit 50 0) ≼ x.temperature) × (x.temperature ≼ lit 150 0)
    pub wind_speed : (lit 0 0 ≼ x.wind_speed) × (x.wind_speed ≼ lit 100 0)

  abbrev Between : W → W → W → Type 0
  Between lo v hi = (lo ≼ v) × (v ≼ hi)

  module _ (laws : IsOrdered W) where
    open laws use {lit_number, neg_number, not_lt, not_le}

    -- A closed range is tested at its two ends.
    closed_range_iff :
        (lo v hi : W)
        → IsNumber lo
        → IsNumber v
        → IsNumber hi
        → ((lt v lo || gt v hi) ≡ false) ↔ Between lo v hi
    closed_range_iff lo v hi a b c = ground (arith, not_lt v lo b a, not_lt hi v c b)

    half_open_range_iff :
        (lo v hi : W)
        → IsNumber lo
        → IsNumber v
        → IsNumber hi
        → ((le v lo || gt v hi) ≡ false) ↔ ((lo ≺ v) × (v ≼ hi))
    half_open_range_iff lo v hi a b c = ground (arith, not_le v lo b a, not_lt hi v c b)

    -- On samples without NaN, the validation accepts just those in range.
    pub validate_sensor_data_iff :
        (x : SensorData W) → AreNumbers x → (validate_sensor_data x ≡ true) ↔ InRange x
    unfolding validate_sensor_data
    validate_sensor_data_iff x n =
        let zero = lit_number 0 0 in
        ground (
          arith,
          half_open_range_iff (lit 0 0) x.arrow_velocity (lit 500 0) zero n.arrow_velocity
              (lit_number 500 0),
          closed_range_iff (lit 0 0) x.range (lit 5000 0) zero n.range (lit_number 5000 0),
          not_lt x.bow_string_tension (lit 0 0) n.bow_string_tension zero,
          not_lt x.bow_arm_deformation (lit 0 0) n.bow_arm_deformation zero,
          closed_range_iff (neg (lit 90 0)) x.aim_angle (lit 90 0) (neg_number _ (lit_number 90 0))
              n.aim_angle (lit_number 90 0),
          closed_range_iff (neg (lit 50 0)) x.temperature (lit 150 0)
              (neg_number _ (lit_number 50 0)) n.temperature (lit_number 150 0),
          closed_range_iff (lit 0 0) x.wind_speed (lit 100 0) zero n.wind_speed (lit_number 100 0),
        )
