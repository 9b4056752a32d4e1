-- ===== src/MqttAlertManager.antt =====
-- backend/src/mqtt_alert_manager.cpp: the alert manager beside the alarm service, with fixed thresholds and
-- no cooldown. The client behind the callback has a state `S`; the log line that stands for the
-- broker is the counter of `Metrics`.
pub mod Agreement
mod Tests
use Prim.Native.String.{String}
use ai_solo_coder_task_b.Prelude.{
  ℕ, Bool, true, false, Option, none, some, List, [], ◌∷◌, if◌then◌else◌,
}
use ai_solo_coder_task_b.Prelude.Int.{ℤ}
use ai_solo_coder_task_b.Double.{Double, ◌⊗◌, gt}
use ai_solo_coder_task_b.Sensor.{SensorData, CrossbowType, Alert}
use ai_solo_coder_task_b.Metrics.{Metrics, increment_alerts_fired, increment_alerts_mqtt_published}
use ai_solo_coder_task_b.AlarmMqttService.{concat, notify, make_alert}

pub record MqttAlertManager (W S : Type 0) : Type 0 where
  pub broker_host : String
  pub broker_port : ℤ
  pub client_id : String
  pub topic_prefix : String
  pub connected : Bool
  pub callback : Option (Alert W → S → S)
  pub client : S
  pub metrics : Metrics

module _ {W S : Type 0} where
  unfoldable pub connect : MqttAlertManager W S → Bool × MqttAlertManager W S
  connect s = (true, record s { connected = true })

  unfoldable pub disconnect : MqttAlertManager W S → MqttAlertManager W S
  disconnect s = record s { connected = false }

  unfoldable pub set_alert_callback :
      Option (Alert W → S → S) → MqttAlertManager W S → MqttAlertManager W S
  set_alert_callback callback s = record s { callback = callback }

  -- The connection is not looked at.
  unfoldable pub send_alert : Alert W → MqttAlertManager W S → Bool × MqttAlertManager W S
  send_alert alert s = (
    true,
    record s {
      metrics = increment_alerts_mqtt_published s.metrics;
      client = notify s.callback alert s.client;
    },
  )

  -- What follows a test that succeeds.
  unfoldable pub fire_alert : Alert W → MqttAlertManager W S → MqttAlertManager W S
  unfolding send_alert
  fire_alert alert s =
      let s' = (send_alert alert s).1 in record s' { metrics = increment_alerts_fired s'.metrics }

module _ {W : Type 0} ⦃d : Double W⦄ where
  open d use {lit, to_string}

  abbrev pub arm_crack_alert : SensorData W → CrossbowType W → Alert W
  arm_crack_alert sample crossbow =
      let threshold = crossbow.bow_length ⊗ lit 8 2 in
      make_alert sample "ARM_CRACK_RISK" "CRITICAL"
        (concat (
          "弩臂裂纹风险预警：形变量 "
          ∷ to_string sample.bow_arm_deformation
          ∷ " m 超过阈值 "
          ∷ to_string threshold
          ∷ " m"
          ∷ []))
        threshold sample.bow_arm_deformation

  abbrev pub excessive_tension_alert : SensorData W → CrossbowType W → Alert W
  excessive_tension_alert sample crossbow =
      let threshold = crossbow.draw_weight ⊗ lit 981 2 ⊗ lit 15 1 in
      make_alert sample "EXCESSIVE_TENSION" "WARNING"
        (concat (
          "弓弦张力过高：张力 "
          ∷ to_string sample.bow_string_tension
          ∷ " N 超过阈值 "
          ∷ to_string threshold
          ∷ " N"
          ∷ []))
        threshold sample.bow_string_tension

  abbrev pub high_temperature_alert : SensorData W → Alert W
  high_temperature_alert sample =
      make_alert sample "HIGH_TEMPERATURE" "WARNING"
        (concat ("弩机温度过高：" ∷ to_string sample.temperature ∷ "°C 超过安全阈值 60°C" ∷ [])) (lit 60 0)
        sample.temperature

module _ {W S : Type 0} ⦃d : Double W⦄ where
  -- One of the three tests.
  unfoldable pub test_alert : Alert W → Bool × MqttAlertManager W S → Bool × MqttAlertManager W S
  test_alert alert (alerted, s) =
      if gt alert.actual_value alert.threshold_value
      then (true, fire_alert alert s)
      else (alerted, s)

  unfoldable pub check_and_alert :
      SensorData W → CrossbowType W → MqttAlertManager W S → Bool × MqttAlertManager W S
  unfolding test_alert
  check_and_alert sample crossbow s = test_alert (high_temperature_alert sample) (
      test_alert (excessive_tension_alert sample crossbow)
        (test_alert (arm_crack_alert sample crossbow) (false, s)))
