-- ===== src/UdpReceiver/Tests.antt =====
-- Tests of the receiver, and its theorems at concrete datagrams.

use ai_solo_coder_task_b.Prelude.{
  ℕ, ◌≡◌, refl, ◌↔◌, true, false, Option, none, some, List, [], ◌∷◌, arith, length, keep_last,
}
use ai_solo_coder_task_b.Prelude.Int.{ℤ, pos}
use ai_solo_coder_task_b.Double.Fixed.{fixed, fixed-IsOrdered}
use ai_solo_coder_task_b.Sensor.{SensorData}
use ai_solo_coder_task_b.MessageQueue.{IsValid, push, push_item}
use ai_solo_coder_task_b.Metrics.{start, increment_udp_received, increment_udp_errors}
use ai_solo_coder_task_b.UdpReceiver.{
  JsonParser, Station, stop, handle_datagram, receive_all, validate_sensor_data, take_sample,
  take_bytes, read_sensor_data, c_string, fill_buffer,
}
use ai_solo_coder_task_b.UdpReceiver.Counts.{Counted, receive_all-Counted}
use ai_solo_coder_task_b.UdpReceiver.Accepted.{accepted, queue-receive_all}
use ai_solo_coder_task_b.UdpReceiver.Ranges.{AreNumbers, InRange, validate_sensor_data_iff}

-- A message of two bytes: the identifier, and the value of every measurement.
abbrev head_or : List ℕ → ℕ
head_or [] = 0
head_or (b ∷ bytes) = b

abbrev parse_pair : List ℕ → Option (ℕ × ℕ)
parse_pair [] = none
parse_pair (b ∷ bytes) = some (b, head_or bytes)

abbrev pairs : JsonParser ℤ (ℕ × ℕ)
pairs = record {
  parse = parse_pair;
  value_int = λ j key default. some (pos j.0);
  value_double = λ j key default. some (fixed.lit j.1 0);
  value_string = λ j key default. some default;
}

abbrev idle : Station ℤ
idle = record {
  receiver = record {
    running = true;
    received_count = 0;
    parse_error_count = 0;
    queue_full_count = 0;
  };
  output_queue = record { capacity = 2; running = true; queue = [] };
  metrics = start;
}

-- Two good samples, one out of range, one that does not parse, an empty one, a good one.
abbrev packets : List (ℕ × List ℕ)
packets =
    (1, 7 ∷ 50 ∷ [])
    ∷ (2, 8 ∷ 60 ∷ [])
    ∷ (3, 9 ∷ 120 ∷ [])
    ∷ (4, 0 ∷ [])
    ∷ (5, [])
    ∷ (6, 7 ∷ 40 ∷ 0 ∷ 1 ∷ [])
    ∷ []

counts :
    let s = receive_all pairs packets idle in
    (s.receiver.received_count ≡ 3)
    × (s.receiver.parse_error_count ≡ 2)
    × (length s.output_queue.queue ≡ 2)
unfolding receive_all handle_datagram take_bytes take_sample validate_sensor_data read_sensor_data
    c_string fill_buffer push_item increment_udp_received increment_udp_errors push
counts = (refl, refl, refl)

stopped : (stop idle).receiver.running ≡ false
unfolding stop
stopped = refl

idle-IsValid : IsValid idle.output_queue
idle-IsValid = omega arith

receive_all-Counted_example : Counted 5 (receive_all pairs packets idle)
receive_all-Counted_example =
    receive_all-Counted pairs packets 0 idle
      (record { received = refl; errors = refl; every = refl; none_full = refl })

queue-receive_all_example :
    (receive_all pairs packets idle).output_queue.queue ≡ keep_last 2 (accepted pairs packets)
queue-receive_all_example = queue-receive_all pairs packets idle idle-IsValid

abbrev sample : SensorData ℤ
sample = record {
  timestamp = 1;
  crossbow_id = 7;
  crossbow_name = "";
  bow_string_tension = fixed.lit 800 0;
  bow_arm_deformation = fixed.lit 2 1;
  arrow_velocity = fixed.lit 62 0;
  range = fixed.lit 210 0;
  spread_x = fixed.lit 0 0;
  spread_y = fixed.lit 0 0;
  aim_angle = fixed.lit 15 0;
  temperature = fixed.lit 61 0;
  humidity = fixed.lit 50 0;
  wind_speed = fixed.lit 3 0;
  wind_direction = fixed.lit 90 0;
}

sample-AreNumbers : AreNumbers sample
sample-AreNumbers = ground arith

validate_sensor_data_iff_example : (validate_sensor_data sample ≡ true) ↔ InRange sample
validate_sensor_data_iff_example = validate_sensor_data_iff fixed-IsOrdered sample sample-AreNumbers
