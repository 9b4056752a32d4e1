-- ===== src/MqttAlertManager/Tests.antt =====
-- A sample that is too hot and bent too far, and the theorem at it.
use ai_solo_coder_task_b.Prelude.{ℕ, suc, ◌≡◌, refl, not, true, false, some, [], ◌∷◌, map}
use ai_solo_coder_task_b.Prelude.Int.{ℤ, pos}
use ai_solo_coder_task_b.Prelude.Map.{find, find_or}
use ai_solo_coder_task_b.Double.Fixed.{fixed}
use ai_solo_coder_task_b.Sensor.{SensorData, CrossbowType}
use ai_solo_coder_task_b.Metrics.{start}
use ai_solo_coder_task_b.AlarmMqttService.{AlarmMqttService, find_crossbow}
use ai_solo_coder_task_b.AlarmMqttService.Due.{due, is_nil, cooled}
use ai_solo_coder_task_b.MqttAlertManager.{MqttAlertManager, check_and_alert, fire_alert}
use ai_solo_coder_task_b.MqttAlertManager.Agreement.{
  raised, fire_all, unworded, check_and_alert-agrees,
}

abbrev qin : CrossbowType ℤ
qin = record {
  id = 1;
  name = "秦弩";
  dynasty = "秦朝";
  draw_weight = fixed.lit 150 0;
  bow_length = fixed.lit 138 2;
  string_length = fixed.lit 142 2;
  arrow_mass = fixed.lit 65 3;
  effective_range = fixed.lit 150 0;
  max_range = fixed.lit 300 0;
}

-- The deformation and the temperature are too high, the tension is not.
abbrev hot : SensorData ℤ
hot = record {
  timestamp = 1;
  crossbow_id = 1;
  crossbow_name = "秦弩";
  bow_string_tension = fixed.lit 800 0;
  bow_arm_deformation = fixed.lit 2 1;
  arrow_velocity = fixed.lit 62 0;
  range = fixed.lit 210 0;
  spread_x = fixed.lit 0 0;
  spread_y = fixed.lit 0 0;
  aim_angle = fixed.lit 15 0;
  temperature = fixed.lit 61 0;
  humidity = fixed.lit 50 0;
  wind_speed = fixed.lit 3 0;
  wind_direction = fixed.lit 90 0;
}

-- The client counts its alerts.
abbrev service : AlarmMqttService ℤ ℕ
service = record {
  thresholds = record {
    deformation_ratio = fixed.lit 8 2;
    tension_ratio = fixed.lit 15 1;
    temperature_c = fixed.lit 60 0;
    debounce_seconds = 10;
  };
  input_queue = record { capacity = 4; running = true; queue = hot ∷ [] };
  output_queue = some (record { capacity = 4; running = true; queue = [] });
  crossbow_types = qin ∷ [];
  alert_callback = some (λ a n. suc n);
  client = 0;
  running = true;
  received_count = 0;
  alert_count = 0;
  active_alerts = [];
  last_alert_time = [];
  metrics = start;
}

abbrev noon : ℤ
noon = fixed.lit 43200 0

abbrev manager : MqttAlertManager ℤ ℕ
manager = record {
  broker_host = "localhost";
  broker_port = pos 1883;
  client_id = "c";
  topic_prefix = "t";
  connected = false;
  callback = some (λ a n. suc n);
  client = 0;
  metrics = start;
}

two_alerts : (check_and_alert hot qin manager).1.client ≡ 2
unfolding check_and_alert fire_alert
two_alerts = refl

known : find_crossbow 1 service.crossbow_types ≡ some qin
unfolding find_crossbow
known = refl

cool : cooled noon hot service ≡ true
unfolding find_or find
cool = refl

check_and_alert-agrees_example :
    (check_and_alert hot qin manager
      ≡ (not (is_nil (raised hot qin)), fire_all (raised hot qin) manager))
    × (map unworded (raised hot qin) ≡ map unworded (due noon hot service))
check_and_alert-agrees_example =
    check_and_alert-agrees noon hot qin service manager (refl, refl, refl) known cool
