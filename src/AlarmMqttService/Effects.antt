-- ===== src/AlarmMqttService/Effects.antt =====
-- What one call of `check_and_alert` does to each part of the service and to its clients.
use ai_solo_coder_task_b.Prelude.{
  ℕ, ◌+◌, ◌%◌, ◌^◌, ◌≤◌, ◌≡◌, refl, sym, ap, ◌∙◌, inl, inr, false, Option-cases, Option, none, some,
  List, [], ◌∷◌, ◌++◌, arith, if◌then◌else◌, Bool-cases, ltb, ◌==◌, length, keep_last,
  keep_last_all, keep_last-append, length-keep_last, append_assoc, append-nil,
}
use ai_solo_coder_task_b.Prelude.Map.{
  find_or, find_or-insert, find_or-insert_self, find_or-insert_ne, AllValues, insert-AllValues,
  find_or-AllValues,
}
use ai_solo_coder_task_b.Double.{Double}
use ai_solo_coder_task_b.Sensor.{SensorData, Alert}
use ai_solo_coder_task_b.MessageQueue.{MessageQueue, push_all}
use ai_solo_coder_task_b.Metrics.{increment_alerts_fired, increment_alerts_mqtt_published}
use ai_solo_coder_task_b.AlarmMqttService.{
  AlarmMqttService, find_crossbow, notify, trim_active, create_and_send, check_and_alert, touch,
}
use ai_solo_coder_task_b.AlarmMqttService.Due.{is_nil, due, send_all, noted, check_and_alert-due}

abbrev push_all_to : {A : Type 0} → Option (MessageQueue A) → List A → Option (MessageQueue A)
push_all_to none xs = none
push_all_to (some q) xs = some (push_all xs q)

abbrev notify_all : {A S : Type 0} → Option (A → S → S) → List A → S → S
notify_all f [] s = s
notify_all f (a ∷ as') s = notify_all f as' (notify f a s)

trim_active-keep_last : {A : Type 0} (xs : List A) → trim_active xs ≡ keep_last 100 xs
trim_active-keep_last xs = elim (Bool-cases (ltb 100 (length xs))) [
  | inl over ↦ rw over
  | inr under ↦ rw under (sym (keep_last_all 100 xs (ground arith)))
]

-- The parts of the service that an alert leaves alone.
pub record SameSetup {W S : Type 0} (s t : AlarmMqttService W S) : Type 0 where
  pub thresholds : t.thresholds ≡ s.thresholds
  pub input_queue : t.input_queue ≡ s.input_queue
  pub crossbow_types : t.crossbow_types ≡ s.crossbow_types
  pub alert_callback : t.alert_callback ≡ s.alert_callback
  pub running : t.running ≡ s.running
  pub received_count : t.received_count ≡ s.received_count

-- No list of active alerts is longer than 100.
abbrev pub IsBounded : {W S : Type 0} → AlarmMqttService W S → Type 0
IsBounded {W} s = AllValues (λ (alerts : List (Alert W)). length alerts ≤ 100) s.active_alerts

module _ {W S : Type 0} ⦃d : Double W⦄ where
  open d use {lit}

  -- After sending `alerts` for `id` at `now`.
  pub record Sent (now : W) (id : ℕ) (alerts : List (Alert W)) (s t : AlarmMqttService W S)
      : Type 0 where
    pub setup : SameSetup s t
    pub output_queue : t.output_queue ≡ push_all_to s.output_queue alerts
    pub client : t.client ≡ notify_all s.alert_callback alerts s.client
    pub alert_count : t.alert_count % 2 ^ 64 ≡ (s.alert_count + length alerts) % 2 ^ 64
    pub alerts_fired :
        t.metrics.alerts_fired % 2 ^ 64 ≡ (s.metrics.alerts_fired + length alerts) % 2 ^ 64
    pub mqtt_published :
        t.metrics.alerts_mqtt_published % 2 ^ 64
        ≡ (s.metrics.alerts_mqtt_published + length alerts) % 2 ^ 64
    pub active :
        find_or id t.active_alerts [] ≡ keep_last 100 (find_or id s.active_alerts [] ++ alerts)
    pub active_others :
        (j : ℕ) → (id == j) ≡ false → find_or j t.active_alerts [] ≡ find_or j s.active_alerts []
    pub time :
        find_or id t.last_alert_time (lit 0 0)
        ≡ (if is_nil alerts then find_or id s.last_alert_time (lit 0 0) else now)
    pub time_others :
        (j : ℕ)
        → (id == j) ≡ false
        → find_or j t.last_alert_time (lit 0 0) ≡ find_or j s.last_alert_time (lit 0 0)

  create_and_send-active :
      (now : W) (id : ℕ) (a : Alert W) (s : AlarmMqttService W S)
      → find_or id (create_and_send now id a s).active_alerts []
        ≡ keep_last 100 (find_or id s.active_alerts [] ++ (a ∷ []))
  unfolding create_and_send
  create_and_send-active now id a s =
      find_or-insert_self id _ [] s.active_alerts
      ∙ trim_active-keep_last (find_or id s.active_alerts [] ++ (a ∷ []))

  send_all-Sent :
      (now : W) (id : ℕ) (alerts : List (Alert W)) (s : AlarmMqttService W S)
      → length (find_or id s.active_alerts []) ≤ 100
      → Sent now id alerts s (send_all now id alerts s)
  unfolding create_and_send increment_alerts_fired increment_alerts_mqtt_published
  send_all-Sent now id [] s h = record {
    setup = ground arith;
    output_queue = ground arith;
    client = refl;
    alert_count = ground arith;
    alerts_fired = ground arith;
    mqtt_published = ground arith;
    active = sym (rw append-nil (keep_last_all 100 _ h));
    active_others = λ j e. refl;
    time = refl;
    time_others = λ j e. refl;
  }
  send_all-Sent now id (a ∷ alerts) s h =
      let s' = create_and_send now id a s in
      let now_active = create_and_send-active now id a s in
      let rest : Sent now id alerts s' (send_all now id alerts s') =
        send_all-Sent now id alerts s' (
          rw now_active
            (omega (arith, length-keep_last 100 (find_or id s.active_alerts [] ++ (a ∷ []))))) in
      record {
        setup = ground arith;
        output_queue = rest.output_queue ∙ ground arith;
        client = rest.client;
        alert_count = ground arith;
        alerts_fired = ground arith;
        mqtt_published = ground arith;
        active =
            rest.active
            ∙ ap (λ xs. keep_last 100 (xs ++ alerts)) now_active
            ∙ keep_last-append 100 (find_or id s.active_alerts [] ++ (a ∷ [])) alerts
            ∙ ap (keep_last 100) (append_assoc (find_or id s.active_alerts []) (a ∷ []) alerts);
        active_others =
            λ j e. rest.active_others j e ∙ find_or-insert_ne id j _ [] s.active_alerts e;
        time = rest.time ∙ ground (arith, find_or-insert_self id now (lit 0 0) s.last_alert_time);
        time_others =
            λ j e. rest.time_others j e ∙ find_or-insert_ne id j now (lit 0 0) s.last_alert_time e;
      }

  create_and_send-IsBounded :
      (now : W) (id : ℕ) (a : Alert W) (s : AlarmMqttService W S)
      → IsBounded s
      → IsBounded (create_and_send now id a s)
  unfolding create_and_send
  create_and_send-IsBounded now id a s b =
      let alerts = find_or id s.active_alerts [] ++ (a ∷ []) in
      insert-AllValues _ id _ s.active_alerts
        (rw (trim_active-keep_last alerts) (omega (arith, length-keep_last 100 alerts))) b

  send_all-IsBounded :
      (now : W) (id : ℕ) (alerts : List (Alert W)) (s : AlarmMqttService W S)
      → IsBounded s
      → IsBounded (send_all now id alerts s)
  send_all-IsBounded now id [] s b = b
  send_all-IsBounded now id (a ∷ alerts) s b =
      send_all-IsBounded now id alerts (create_and_send now id a s)
        (create_and_send-IsBounded now id a s b)

  noted-IsBounded :
      (x : SensorData W) (s : AlarmMqttService W S) → IsBounded s → IsBounded (noted x s)
  unfolding noted
  noted-IsBounded x s b = ground arith

  -- No call makes a list of active alerts longer than 100.
  pub check_and_alert-IsBounded :
      (now : W) (x : SensorData W) (s : AlarmMqttService W S)
      → IsBounded s
      → IsBounded (check_and_alert now x s).1
  check_and_alert-IsBounded now x s b =
      rw (check_and_alert-due now x s)
        (send_all-IsBounded now x.crossbow_id (due now x s) (noted x s) (noted-IsBounded x s b))

  -- The entry that `touch` makes reads as the missing one did.
  touch-time :
      (id : ℕ) (s : AlarmMqttService W S) (j : ℕ)
      → find_or j (touch id s).last_alert_time (lit 0 0) ≡ find_or j s.last_alert_time (lit 0 0)
  touch-time id s j = ground (
    arith,
    find_or-insert id j (find_or id s.last_alert_time (lit 0 0)) (lit 0 0) s.last_alert_time,
  )

  touch-Sent :
      (now : W) (id : ℕ) (alerts : List (Alert W)) (s t : AlarmMqttService W S)
      → Sent now id alerts (touch id s) t
      → Sent now id alerts s t
  touch-Sent now id alerts s t h = record {
    setup = ground arith;
    output_queue = h.output_queue;
    client = h.client;
    alert_count = h.alert_count;
    alerts_fired = h.alerts_fired;
    mqtt_published = h.mqtt_published;
    active = h.active;
    active_others = h.active_others;
    time = h.time ∙ ap (λ old. if is_nil alerts then old else now) (touch-time id s id);
    time_others = λ j e. h.time_others j e ∙ touch-time id s j;
  }

  noted-Sent :
      (now : W) (x : SensorData W) (alerts : List (Alert W)) (s t : AlarmMqttService W S)
      → Sent now x.crossbow_id alerts (noted x s) t
      → Sent now x.crossbow_id alerts s t
  unfolding noted
  noted-Sent now x alerts s t h =
      elim (Option-cases (find_crossbow x.crossbow_id s.crossbow_types)) [
        | inl e ↦ rw (e, noted) at h
        | inr (cb, e) ↦ touch-Sent now x.crossbow_id alerts s t (rw (e, noted) at h)
      ]

  -- A call sends just the alerts due: the output queue, the callback's client and the counters get
  -- each of them once and in order, the crossbow's active alerts are the newest 100, its last alert is
  -- now if there was one, and other crossbows and the setup stay as they were.
  pub check_and_alert-Sent :
      (now : W) (x : SensorData W) (s : AlarmMqttService W S)
      → IsBounded s
      → Sent now x.crossbow_id (due now x s) s (check_and_alert now x s).1
  check_and_alert-Sent now x s b =
      let active =
        find_or-AllValues _ x.crossbow_id (noted x s).active_alerts [] (omega arith)
          (noted-IsBounded x s b) in
      rw (check_and_alert-due now x s) (
        noted-Sent now x (due now x s) s _
          (send_all-Sent now x.crossbow_id (due now x s) (noted x s) active))
