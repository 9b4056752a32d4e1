-- ===== src/MqttAlertManager/Agreement.antt =====
-- The alert manager and the alarm service raise the same alerts.
use ai_solo_coder_task_b.Prelude.{
  ◌≡◌, refl, ap, ◌∙◌, sym, true, not, Bool-cases, inl, inr, some, List, [], ◌∷◌, map, arith,
}
use ai_solo_coder_task_b.Double.{Double, gt}
use ai_solo_coder_task_b.Sensor.{SensorData, CrossbowType, Alert}
use ai_solo_coder_task_b.AlarmMqttService.{
  AlarmMqttService, Thresholds, find_crossbow, deformation_alert, tension_alert, temperature_alert,
}
use ai_solo_coder_task_b.AlarmMqttService.Due.{exceeding, is_nil, due, cooled}
use ai_solo_coder_task_b.MqttAlertManager.{
  MqttAlertManager, fire_alert, arm_crack_alert, excessive_tension_alert, high_temperature_alert,
  check_and_alert,
}

module _ {W : Type 0} ⦃d : Double W⦄ where
  open d use {lit}

  abbrev pub manager_alerts : SensorData W → CrossbowType W → List (Alert W)
  manager_alerts sample cb =
      arm_crack_alert sample cb
      ∷ excessive_tension_alert sample cb
      ∷ high_temperature_alert sample
      ∷ []

  abbrev pub service_alerts : Thresholds W → SensorData W → CrossbowType W → List (Alert W)
  service_alerts t sample cb =
      deformation_alert t cb sample ∷ tension_alert t cb sample ∷ temperature_alert t cb sample ∷ []

  -- The alerts of the manager whose value is above its threshold.
  abbrev pub raised : SensorData W → CrossbowType W → List (Alert W)
  raised sample cb = exceeding (manager_alerts sample cb)

  -- An alert but for the words of its message.
  abbrev pub unworded : Alert W → Alert W
  unworded a = record a { message = "" }

  -- The thresholds of the configuration's defaults.
  abbrev pub IsDefault : Thresholds W → Type 0
  IsDefault t =
      (t.deformation_ratio ≡ lit 8 2) × (t.tension_ratio ≡ lit 15 1) × (t.temperature_c ≡ lit 60 0)

  exceeding-unworded :
      (alerts : List (Alert W)) → map unworded (exceeding alerts) ≡ exceeding (map unworded alerts)
  exceeding-unworded [] = refl
  exceeding-unworded (a ∷ alerts) = elim (Bool-cases (gt a.actual_value a.threshold_value)) [
    | inl above ↦ rw above (ap (λ l. unworded a ∷ l) (exceeding-unworded alerts))
    | inr below ↦ rw below (exceeding-unworded alerts)
  ]

  same_alerts :
      (t : Thresholds W) (sample : SensorData W) (cb : CrossbowType W)
      → IsDefault t
      → map unworded (service_alerts t sample cb) ≡ map unworded (manager_alerts sample cb)
  same_alerts t sample cb (e0, e1, e2) = simp (e0, e1, e2)

module _ {W S : Type 0} ⦃d : Double W⦄ where
  abbrev pub fire_all : List (Alert W) → MqttAlertManager W S → MqttAlertManager W S
  fire_all [] s = s
  fire_all (a ∷ alerts) s = fire_all alerts (fire_alert a s)

  check_and_alert-raised :
      (sample : SensorData W) (crossbow : CrossbowType W) (s : MqttAlertManager W S)
      → check_and_alert sample crossbow s
        ≡ (not (is_nil (raised sample crossbow)), fire_all (raised sample crossbow) s)
  unfolding check_and_alert
  check_and_alert-raised sample crossbow s = ground arith

module _ {W T : Type 0} ⦃d : Double W⦄ where
  due_known :
      (now : W) (sample : SensorData W) (cb : CrossbowType W) (service : AlarmMqttService W T)
      → find_crossbow sample.crossbow_id service.crossbow_types ≡ some cb
      → cooled now sample service ≡ true
      → due now sample service ≡ exceeding (service_alerts service.thresholds sample cb)
  unfolding due
  due_known now sample cb service known cool = rw (known, due) (rw cool)

module _ {W S T : Type 0} ⦃d : Double W⦄ where
  -- The manager and the alarm service agree: with the default thresholds, on a sample of a crossbow
  -- that the service knows and whose cooldown has passed, the manager fires one alert for each one due
  -- at the service, in that order and the same but for the message, and says whether there was one.
  pub check_and_alert-agrees :
      (now : W) (sample : SensorData W) (cb : CrossbowType W) (service : AlarmMqttService W T)
      (s : MqttAlertManager W S)
      → IsDefault service.thresholds
      → find_crossbow sample.crossbow_id service.crossbow_types ≡ some cb
      → cooled now sample service ≡ true
      → (check_and_alert sample cb s
          ≡ (not (is_nil (raised sample cb)), fire_all (raised sample cb) s))
        × (map unworded (raised sample cb) ≡ map unworded (due now sample service))
  check_and_alert-agrees now sample cb service s t known cool = (
    check_and_alert-raised sample cb s,
    exceeding-unworded (manager_alerts sample cb)
        ∙ ap exceeding (sym (same_alerts service.thresholds sample cb t))
        ∙ sym (exceeding-unworded (service_alerts service.thresholds sample cb))
        ∙ sym (ap (map unworded) (due_known now sample cb service known cool)),
  )
