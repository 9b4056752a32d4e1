-- ===== src/Metrics.antt =====
-- backend/src/metrics.cpp without HAS_PROMETHEUS: the counters of the singleton `Metrics`. A `uint64_t`
-- wraps at 2 ^ 64. The latency histogram keeps nothing in this build.
use ai_solo_coder_task_b.Prelude.{ℕ, ◌+◌, ◌%◌, ◌^◌}

-- `++n` on a `uint64_t`.
abbrev pub increment : ℕ → ℕ
increment n = (n + 1) % 2 ^ 64

pub record Metrics : Type 0 where
  pub udp_received : ℕ
  pub udp_errors : ℕ
  pub ballistic_processed : ℕ
  pub accuracy_processed : ℕ
  pub alerts_fired : ℕ
  pub alerts_mqtt_published : ℕ
  pub queue_ballistic : ℕ
  pub queue_accuracy : ℕ
  pub queue_alarm : ℕ

unfoldable pub increment_udp_received : Metrics → Metrics
increment_udp_received m = record m { udp_received = increment m.udp_received }

unfoldable pub increment_udp_errors : Metrics → Metrics
increment_udp_errors m = record m { udp_errors = increment m.udp_errors }

unfoldable pub increment_ballistic_processed : Metrics → Metrics
increment_ballistic_processed m = record m { ballistic_processed = increment m.ballistic_processed }

unfoldable pub increment_accuracy_processed : Metrics → Metrics
increment_accuracy_processed m = record m { accuracy_processed = increment m.accuracy_processed }

unfoldable pub increment_alerts_fired : Metrics → Metrics
increment_alerts_fired m = record m { alerts_fired = increment m.alerts_fired }

unfoldable pub increment_alerts_mqtt_published : Metrics → Metrics
increment_alerts_mqtt_published m = record m {
  alerts_mqtt_published = increment m.alerts_mqtt_published;
}

unfoldable pub set_queue_size_ballistic : ℕ → Metrics → Metrics
set_queue_size_ballistic size m = record m { queue_ballistic = size }

unfoldable pub set_queue_size_accuracy : ℕ → Metrics → Metrics
set_queue_size_accuracy size m = record m { queue_accuracy = size }

unfoldable pub set_queue_size_alarm : ℕ → Metrics → Metrics
set_queue_size_alarm size m = record m { queue_alarm = size }

-- All counters and gauges at zero.
abbrev pub start : Metrics
start = record {
  udp_received = 0;
  udp_errors = 0;
  ballistic_processed = 0;
  accuracy_processed = 0;
  alerts_fired = 0;
  alerts_mqtt_published = 0;
  queue_ballistic = 0;
  queue_accuracy = 0;
  queue_alarm = 0;
}
