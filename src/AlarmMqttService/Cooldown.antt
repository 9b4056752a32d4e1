-- ===== src/AlarmMqttService/Cooldown.antt =====
-- When `check_and_alert` stays silent, and what the cooldown depends on.
use ai_solo_coder_task_b.Prelude.{
  ℕ, ◌≡◌, refl, sym, ap, ◌∙◌, Bool, true, false, not, List, [], ◌∷◌, arith,
}
use ai_solo_coder_task_b.Prelude.Map.{find_or}
use ai_solo_coder_task_b.Double.{Double, gt}
use ai_solo_coder_task_b.Sensor.{SensorData, Alert}
use ai_solo_coder_task_b.AlarmMqttService.{
  AlarmMqttService, cooldown, create_and_send, check_and_alert,
}
use ai_solo_coder_task_b.AlarmMqttService.Due.{
  is_nil, cooled, due, noted, check_and_alert-due, send_all,
}
use ai_solo_coder_task_b.AlarmMqttService.Effects.{
  IsBounded, Sent, check_and_alert-Sent, check_and_alert-IsBounded,
}

module _ {W S : Type 0} ⦃d : Double W⦄ where
  open d use {lit, sub}

  due_cooling :
      (now : W) (x : SensorData W) (s : AlarmMqttService W S)
      → cooled now x s ≡ false
      → due now x s ≡ []
  unfolding due
  due_cooling now x s e = ground arith

  -- The outcome of a call that alerts nobody.
  pub record Silent (id : ℕ) (s : AlarmMqttService W S) (r : Bool × AlarmMqttService W S)
      : Type 0 where
    pub result : r.0 ≡ false
    pub output_queue : r.1.output_queue ≡ s.output_queue
    pub client : r.1.client ≡ s.client
    pub last_time :
        find_or id r.1.last_alert_time (lit 0 0) ≡ find_or id s.last_alert_time (lit 0 0)

  due_nil-Silent :
      (now : W) (x : SensorData W) (s : AlarmMqttService W S)
      → due now x s ≡ []
      → IsBounded s
      → Silent x.crossbow_id s (check_and_alert now x s)
  due_nil-Silent now x s e b =
      let sent : Sent now x.crossbow_id [] s (check_and_alert now x s).1 =
        rw e at (check_and_alert-Sent now x s b) in
      record {
        result = ap (λ r. r.0) (check_and_alert-due now x s) ∙ rw e;
        output_queue = sent.output_queue ∙ ground arith;
        client = sent.client;
        last_time = sent.time;
      }

  last_time :
      (now : W) (x : SensorData W) (s : AlarmMqttService W S)
      → IsBounded s
      → not (is_nil (due now x s)) ≡ true
      → find_or x.crossbow_id (check_and_alert now x s).1.last_alert_time (lit 0 0) ≡ now
  last_time now x s b e = (check_and_alert-Sent now x s b).time ∙ ground arith

  -- After an alert the same crossbow raises none until more than the cooldown has passed.
  pub check_and_alert-cooldown :
      (now later : W) (x y : SensorData W) (s : AlarmMqttService W S)
      → IsBounded s
      → y.crossbow_id ≡ x.crossbow_id
      → (check_and_alert now x s).0 ≡ true
      → gt (sub later now) cooldown ≡ false
      → let s' = (check_and_alert now x s).1 in Silent y.crossbow_id s' (check_and_alert later y s')
  check_and_alert-cooldown now later x y s b same alerted soon =
      let s' = (check_and_alert now x s).1 in
      let some_due : not (is_nil (due now x s)) ≡ true =
        sym (ap (λ r. r.0) (check_and_alert-due now x s)) ∙ alerted in
      let last : find_or y.crossbow_id s'.last_alert_time (lit 0 0) ≡ now =
        rw same (last_time now x s b some_due) in
      due_nil-Silent later y s' (due_cooling later y s' (rw last soon))
        (check_and_alert-IsBounded now x s b)

  -- The service with another `debounce_seconds` in its configuration.
  abbrev pub with_debounce : ℕ → AlarmMqttService W S → AlarmMqttService W S
  with_debounce k s = record s { thresholds = record (s.thresholds) { debounce_seconds = k } }

  create_and_send-debounce :
      (now : W) (id k : ℕ) (a : Alert W) (s : AlarmMqttService W S)
      → create_and_send now id a (with_debounce k s) ≡ with_debounce k (create_and_send now id a s)
  unfolding create_and_send
  create_and_send-debounce now id k a s = refl

  send_all-debounce :
      (now : W) (id k : ℕ) (alerts : List (Alert W)) (s : AlarmMqttService W S)
      → send_all now id alerts (with_debounce k s) ≡ with_debounce k (send_all now id alerts s)
  unfolding create_and_send
  send_all-debounce now id k [] s = refl
  send_all-debounce now id k (a ∷ alerts) s =
      send_all-debounce now id k alerts (create_and_send now id a s)

  due-debounce :
      (k : ℕ) (now : W) (x : SensorData W) (s : AlarmMqttService W S)
      → due now x (with_debounce k s) ≡ due now x s
  unfolding due
  due-debounce k now x s = refl

  noted-debounce :
      (k : ℕ) (x : SensorData W) (s : AlarmMqttService W S)
      → noted x (with_debounce k s) ≡ with_debounce k (noted x s)
  unfolding noted
  noted-debounce k x s = ground arith

  -- The configured `debounce_seconds` changes nothing that a call does: the cooldown is a constant.
  pub check_and_alert-with_debounce :
      (k : ℕ) (now : W) (x : SensorData W) (s : AlarmMqttService W S)
      → let (alerted, s') = check_and_alert now x s in
        check_and_alert now x (with_debounce k s) ≡ (alerted, with_debounce k s')
  check_and_alert-with_debounce k now x s =
      let id = x.crossbow_id in
      let alerts = due now x s in
      check_and_alert-due now x (with_debounce k s)
      ∙ ap (λ xs. (not (is_nil xs), send_all now id xs (noted x (with_debounce k s))))
          (due-debounce k now x s)
      ∙ ap (λ t. (not (is_nil alerts), send_all now id alerts t)) (noted-debounce k x s)
      ∙ ap (λ t. (not (is_nil alerts), t)) (send_all-debounce now id k alerts (noted x s))
      ∙ ap (λ r. (r.0, with_debounce k r.1)) (sym (check_and_alert-due now x s))
