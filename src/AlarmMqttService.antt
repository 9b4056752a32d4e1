-- ===== src/AlarmMqttService.antt =====
-- backend/src/alarm_mqtt_service.cpp: thresholds on each sample, a cooldown for each crossbow, and the
-- lists of active alerts. The clock is an argument; the client behind the alert callback has a state
-- `S` of its own; the log lines that stand for the MQTT broker are the counter of `Metrics`.
pub mod Due
pub mod Effects
pub mod Cooldown
mod Tests
use Prim.Native.String.{String, ◌++◌ as append}
use ai_solo_coder_task_b.Prelude.{
  ℕ, ◌-◌, Bool, true, false, ◌&&◌, Option, none, some, List, [], ◌∷◌, ◌++◌, ltb, ◌==◌,
  if◌then◌else◌, length, drop,
}
use ai_solo_coder_task_b.Prelude.Map.{Map, find, find_or, insert}
use ai_solo_coder_task_b.Double.{Double, gt}
use ai_solo_coder_task_b.Sensor.{SensorData, CrossbowType, Alert}
use ai_solo_coder_task_b.MessageQueue.{MessageQueue, WaitResult, blocked, returned, push, wait_pop}
use ai_solo_coder_task_b.MessageQueue
use ai_solo_coder_task_b.Metrics.{
  Metrics, increment, increment_alerts_fired, increment_alerts_mqtt_published,
}

-- `AppConfig::AlertThresholds`.
pub record Thresholds (W : Type 0) : Type 0 where
  pub deformation_ratio : W
  pub tension_ratio : W
  pub temperature_c : W
  pub debounce_seconds : ℕ

pub record AlarmMqttService (W S : Type 0) : Type 0 where
  pub thresholds : Thresholds W
  pub input_queue : MessageQueue (SensorData W)
  pub output_queue : Option (MessageQueue (Alert W))
  pub crossbow_types : List (CrossbowType W)
  pub alert_callback : Option (Alert W → S → S)
  pub client : S
  pub running : Bool
  pub received_count : ℕ
  pub alert_count : ℕ
  pub active_alerts : Map (List (Alert W))
  pub last_alert_time : Map W
  pub metrics : Metrics

-- The first type with the identifier.
unfoldable pub find_crossbow : {W : Type 0} → ℕ → List (CrossbowType W) → Option (CrossbowType W)
find_crossbow id [] = none
find_crossbow id (cb ∷ types) = if cb.id == id then some cb else find_crossbow id types

abbrev pub concat : List String → String
concat [] = ""
concat (s ∷ rest) = append s (concat rest)

-- `std::function` members that may be empty, and queues that may be null.
abbrev pub notify : {A S : Type 0} → Option (A → S → S) → A → S → S
notify none a s = s
notify (some f) a s = f a s

abbrev pub push_to : {A : Type 0} → Option (MessageQueue A) → A → Option (MessageQueue A)
push_to none a = none
push_to (some q) a = some (push a q)

-- At most the newest 100 alerts of a crossbow.
abbrev pub trim_active : {A : Type 0} → List A → List A
trim_active alerts = if ltb 100 (length alerts) then drop (length alerts - 100) alerts else alerts

module _ {W : Type 0} ⦃d : Double W⦄ where
  open d use {lit, mul, to_string}

  abbrev pub cooldown : W
  cooldown = lit 10 0

  abbrev pub make_alert : SensorData W → String → String → String → W → W → Alert W
  make_alert sample type severity msg threshold actual = record {
    timestamp = sample.timestamp;
    crossbow_id = sample.crossbow_id;
    crossbow_name = sample.crossbow_name;
    alert_type = type;
    severity = severity;
    message = msg;
    threshold_value = threshold;
    actual_value = actual;
  }

  -- The alert of each threshold.
  abbrev pub deformation_alert : Thresholds W → CrossbowType W → SensorData W → Alert W
  deformation_alert t cb sample =
      let threshold = mul cb.bow_length t.deformation_ratio in
      make_alert sample "ARM_CRACK_RISK" "CRITICAL"
        (concat (
          "弩臂裂纹风险预警：形变量 "
          ∷ to_string sample.bow_arm_deformation
          ∷ " m 超过阈值 "
          ∷ to_string threshold
          ∷ " m"
          ∷ []))
        threshold sample.bow_arm_deformation

  abbrev pub tension_alert : Thresholds W → CrossbowType W → SensorData W → Alert W
  tension_alert t cb sample =
      let threshold = mul (mul cb.draw_weight (lit 981 2)) t.tension_ratio in
      make_alert sample "EXCESSIVE_TENSION" "WARNING"
        (concat (
          "弓弦张力过高：张力 "
          ∷ to_string sample.bow_string_tension
          ∷ " N 超过阈值 "
          ∷ to_string threshold
          ∷ " N"
          ∷ []))
        threshold sample.bow_string_tension

  abbrev pub temperature_alert : Thresholds W → CrossbowType W → SensorData W → Alert W
  temperature_alert t cb sample =
      make_alert sample "HIGH_TEMPERATURE" "WARNING"
        (concat (
          "弩机温度过高："
          ∷ to_string sample.temperature
          ∷ "°C 超过安全阈值 "
          ∷ to_string t.temperature_c
          ∷ "°C"
          ∷ []))
        t.temperature_c sample.temperature

module _ {W S : Type 0} ⦃d : Double W⦄ where
  open d use {lit, sub, lt}

  -- `publish_alert_mqtt`.
  publish_alert_mqtt : AlarmMqttService W S → AlarmMqttService W S
  unfolding increment_alerts_mqtt_published
  publish_alert_mqtt s = record s { metrics = increment_alerts_mqtt_published s.metrics }

  -- The critical section of `create_and_send`.
  record_alert : W → ℕ → Alert W → AlarmMqttService W S → AlarmMqttService W S
  record_alert now id alert s = record s {
    active_alerts =
        insert id (trim_active (find_or id s.active_alerts [] ++ (alert ∷ []))) s.active_alerts;
    last_alert_time = insert id now s.last_alert_time;
  }

  -- `create_and_send` on the alert that it makes.
  pub create_and_send : W → ℕ → Alert W → AlarmMqttService W S → AlarmMqttService W S
  unfolding publish_alert_mqtt record_alert increment_alerts_fired
  create_and_send now id alert s =
      let s1 = record s { output_queue = push_to s.output_queue alert } in
      let s2 = publish_alert_mqtt s1 in
      let s3 = record s2 { client = notify s2.alert_callback alert s2.client } in
      let s4 = record_alert now id alert s3 in
      record s4 {
        alert_count = increment s4.alert_count;
        metrics = increment_alerts_fired s4.metrics;
      }

  -- One of the three tests: `last_time` is the value read at the start of the call.
  pub test_threshold :
      W → W → ℕ → Alert W → Bool × AlarmMqttService W S → Bool × AlarmMqttService W S
  test_threshold now last_time id alert (alerted, s) =
      if gt alert.actual_value alert.threshold_value && gt (sub now last_time) cooldown
      then (true, create_and_send now id alert s)
      else (alerted, s)

  -- `last_alert_time_[id]`, which makes the entry if there is none.
  abbrev pub touch : ℕ → AlarmMqttService W S → AlarmMqttService W S
  touch id s = record s {
    last_alert_time = insert id (find_or id s.last_alert_time (lit 0 0)) s.last_alert_time;
  }

  pub check_and_alert : W → SensorData W → AlarmMqttService W S → Bool × AlarmMqttService W S
  unfolding test_threshold
  check_and_alert now sample s = elim (find_crossbow sample.crossbow_id s.crossbow_types) [
    | none ↦ (false, s)
    | some cb ↦
        let id = sample.crossbow_id in
        let last_time = find_or id s.last_alert_time (lit 0 0) in
        test_threshold now last_time id (temperature_alert s.thresholds cb sample) (
          test_threshold now last_time id (tension_alert s.thresholds cb sample) (
            test_threshold now last_time id (deformation_alert s.thresholds cb sample)
              (false, touch id s)))
  ]

  -- One round of `worker_loop` at a moment when its thread holds the queue's mutex: `none` while it
  -- sleeps in `wait_pop`.
  pub worker_round : Bool → W → AlarmMqttService W S → Option (AlarmMqttService W S)
  unfolding check_and_alert
  worker_round timed_out now s = elim (wait_pop timed_out s.input_queue) [
    | blocked ↦ none
    | returned none rest ↦ some (record s { input_queue = rest })
    | returned (some sample) rest ↦
        let s' = (check_and_alert now sample (record s { input_queue = rest })).1 in
        some (record s' { received_count = increment s'.received_count })
  ]

  pub stop : AlarmMqttService W S → AlarmMqttService W S
  stop s = record s { running = false; input_queue = MessageQueue.stop s.input_queue }

abbrev flatten : {A : Type 0} → Map (List A) → List A
flatten [] = []
flatten ((k, xs) ∷ m) = xs ++ flatten m

-- All the alerts for 0, in the order of the identifiers.
unfoldable pub get_active_alerts : {W S : Type 0} → ℕ → AlarmMqttService W S → List (Alert W)
get_active_alerts id s =
    if id == 0
    then flatten s.active_alerts
    else (elim (find id s.active_alerts) [ none ↦ [] | some alerts ↦ alerts ])
