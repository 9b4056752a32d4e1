-- ===== src/AlarmMqttService/Tests.antt =====
-- Tests of the alarm service, and its theorems at a concrete sample.
use ai_solo_coder_task_b.Prelude.{ℕ, suc, ◌≡◌, refl, true, some, [], ◌∷◌, length}
use ai_solo_coder_task_b.Prelude.Int.{ℤ}
use ai_solo_coder_task_b.Prelude.Map.{find, find_or, insert}
use ai_solo_coder_task_b.Double.Fixed.{fixed}
use ai_solo_coder_task_b.Sensor.{SensorData, CrossbowType}
use ai_solo_coder_task_b.MessageQueue.{push}
use ai_solo_coder_task_b.Metrics.{start, increment_alerts_fired, increment_alerts_mqtt_published}
use ai_solo_coder_task_b.AlarmMqttService.{
  AlarmMqttService, find_crossbow, create_and_send, check_and_alert, get_active_alerts,
}
use ai_solo_coder_task_b.AlarmMqttService.Due.{due}
use ai_solo_coder_task_b.AlarmMqttService.Effects.{
  Sent, IsBounded, check_and_alert-Sent, check_and_alert-IsBounded,
}
use ai_solo_coder_task_b.AlarmMqttService.Cooldown.{
  Silent, check_and_alert-cooldown, with_debounce, check_and_alert-with_debounce,
}

abbrev qin : CrossbowType ℤ
qin = record {
  id = 1;
  name = "秦弩";
  dynasty = "秦朝";
  draw_weight = fixed.lit 150 0;
  bow_length = fixed.lit 138 2;
  string_length = fixed.lit 142 2;
  arrow_mass = fixed.lit 65 3;
  effective_range = fixed.lit 150 0;
  max_range = fixed.lit 300 0;
}

-- The deformation and the temperature are too high, the tension is not.
abbrev hot : SensorData ℤ
hot = record {
  timestamp = 1;
  crossbow_id = 1;
  crossbow_name = "秦弩";
  bow_string_tension = fixed.lit 800 0;
  bow_arm_deformation = fixed.lit 2 1;
  arrow_velocity = fixed.lit 62 0;
  range = fixed.lit 210 0;
  spread_x = fixed.lit 0 0;
  spread_y = fixed.lit 0 0;
  aim_angle = fixed.lit 15 0;
  temperature = fixed.lit 61 0;
  humidity = fixed.lit 50 0;
  wind_speed = fixed.lit 3 0;
  wind_direction = fixed.lit 90 0;
}

-- The client counts its alerts.
abbrev service : AlarmMqttService ℤ ℕ
service = record {
  thresholds = record {
    deformation_ratio = fixed.lit 8 2;
    tension_ratio = fixed.lit 15 1;
    temperature_c = fixed.lit 60 0;
    debounce_seconds = 10;
  };
  input_queue = record { capacity = 4; running = true; queue = hot ∷ [] };
  output_queue = some (record { capacity = 4; running = true; queue = [] });
  crossbow_types = qin ∷ [];
  alert_callback = some (λ a n. suc n);
  client = 0;
  running = true;
  received_count = 0;
  alert_count = 0;
  active_alerts = [];
  last_alert_time = [];
  metrics = start;
}

abbrev noon : ℤ
noon = fixed.lit 43200 0

two_alerts :
    let (alerted, s) = check_and_alert noon hot service in
    (alerted ≡ true) × (s.client ≡ 2) × (length (get_active_alerts 1 s) ≡ 2) × (s.alert_count ≡ 2)
unfolding check_and_alert create_and_send find_crossbow find find_or insert get_active_alerts
    increment_alerts_fired increment_alerts_mqtt_published push
two_alerts = (refl, refl, refl, refl)

check_and_alert-Sent_example :
    Sent noon 1 (due noon hot service) service (check_and_alert noon hot service).1
check_and_alert-Sent_example = check_and_alert-Sent noon hot service tt

check_and_alert-IsBounded_example : IsBounded (check_and_alert noon hot service).1
check_and_alert-IsBounded_example = check_and_alert-IsBounded noon hot service tt

hot_alerts : (check_and_alert noon hot service).0 ≡ true
unfolding check_and_alert create_and_send find_crossbow find find_or
hot_alerts = refl

check_and_alert-cooldown_example :
    Silent 1
      (check_and_alert noon hot service).1
      (check_and_alert (fixed.lit 43210 0) hot (check_and_alert noon hot service).1)
check_and_alert-cooldown_example =
    check_and_alert-cooldown noon (fixed.lit 43210 0) hot hot service tt refl hot_alerts refl

check_and_alert-with_debounce_example :
    let (alerted, s') = check_and_alert noon hot service in
    check_and_alert noon hot (with_debounce 60 service) ≡ (alerted, with_debounce 60 s')
check_and_alert-with_debounce_example = check_and_alert-with_debounce 60 noon hot service
