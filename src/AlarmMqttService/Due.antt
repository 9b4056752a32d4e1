-- ===== src/AlarmMqttService/Due.antt =====
-- The alerts that a sample calls for, and how `check_and_alert` sends them.
use ai_solo_coder_task_b.Prelude.{
  ℕ, ◌≡◌, inl, inr, Bool, true, false, not, Option-cases, none, some, List, [], ◌∷◌, arith,
  if◌then◌else◌,
}
use ai_solo_coder_task_b.Prelude.Map.{find_or}
use ai_solo_coder_task_b.Double.{Double, gt}
use ai_solo_coder_task_b.Sensor.{SensorData, Alert}
use ai_solo_coder_task_b.AlarmMqttService.{
  AlarmMqttService, find_crossbow, cooldown, deformation_alert, tension_alert, temperature_alert,
  create_and_send, check_and_alert, touch,
}

abbrev pub is_nil : {A : Type 0} → List A → Bool
is_nil [] = true
is_nil (x ∷ xs) = false

module _ {W : Type 0} ⦃d : Double W⦄ where
  -- The alerts whose value is above its threshold.
  abbrev pub exceeding : List (Alert W) → List (Alert W)
  exceeding [] = []
  exceeding (a ∷ alerts) =
      if gt a.actual_value a.threshold_value then a ∷ exceeding alerts else exceeding alerts

module _ {W S : Type 0} ⦃d : Double W⦄ where
  open d use {lit, sub}

  -- The cooldown of the sample's crossbow has passed.
  abbrev pub cooled : W → SensorData W → AlarmMqttService W S → Bool
  cooled now sample s =
      gt (sub now (find_or sample.crossbow_id s.last_alert_time (lit 0 0))) cooldown

  -- The alerts due: none within the cooldown or for an unknown crossbow, else one for each threshold
  -- that is exceeded.
  unfoldable pub due : W → SensorData W → AlarmMqttService W S → List (Alert W)
  due now sample s = elim (find_crossbow sample.crossbow_id s.crossbow_types) [
    | none ↦ []
    | some cb ↦
        if cooled now sample s
        then exceeding (
            deformation_alert s.thresholds cb sample
            ∷ tension_alert s.thresholds cb sample
            ∷ temperature_alert s.thresholds cb sample
            ∷ [])
        else []
  ]

  abbrev pub send_all : W → ℕ → List (Alert W) → AlarmMqttService W S → AlarmMqttService W S
  send_all now id [] s = s
  send_all now id (a ∷ alerts) s = send_all now id alerts (create_and_send now id a s)

  -- A known crossbow gets an entry for its last alert.
  unfoldable pub noted : SensorData W → AlarmMqttService W S → AlarmMqttService W S
  noted sample s = elim (find_crossbow sample.crossbow_id s.crossbow_types) [
    | none ↦ s
    | some cb ↦ touch sample.crossbow_id s
  ]

  -- `check_and_alert` sends the alerts due, in the order of the three tests, and says whether there
  -- was one; the cooldown is judged by the time before the call for all three.
  pub check_and_alert-due :
      (now : W) (sample : SensorData W) (s : AlarmMqttService W S)
      → check_and_alert now sample s ≡ (
        not (is_nil (due now sample s)),
        send_all now sample.crossbow_id (due now sample s) (noted sample s),
      )
  unfolding check_and_alert due noted
  check_and_alert-due now sample s =
      elim (Option-cases (find_crossbow sample.crossbow_id s.crossbow_types)) [
        | inl e ↦ rw (e, check_and_alert, due, noted)
        | inr (cb, e) ↦ rw (e, check_and_alert, due, noted) (ground arith)
      ]
