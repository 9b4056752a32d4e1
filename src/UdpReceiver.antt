-- ===== src/UdpReceiver.antt =====
-- backend/src/udp_receiver.cpp: the receiver thread, a datagram at a time. The sockets and the JSON
-- parser are not the program's: a datagram is a list of bytes with the time at which it is read,
-- and `JsonParser` stands for nlohmann::json.
mod Buffer
pub mod Counts
pub mod Accepted
pub mod Ranges
mod Tests
use Prim.Native.String.{String}
use ai_solo_coder_task_b.Prelude.{
  ℕ, zero, suc, ◌+◌, ◌-◌, ◌%◌, ◌^◌, Bool, true, false, ◌||◌, not, Option, none, some, List, [], ◌∷◌,
  ◌==◌, if◌then◌else◌, ◌>>=◌,
}
use ai_solo_coder_task_b.Prelude.Int.{ℤ, pos, negsuc}
use ai_solo_coder_task_b.Double.{Double, gt}
use ai_solo_coder_task_b.Sensor.{SensorData}
use ai_solo_coder_task_b.MessageQueue.{MessageQueue, push_item}
use ai_solo_coder_task_b.MessageQueue
use ai_solo_coder_task_b.Metrics.{Metrics, increment, increment_udp_received, increment_udp_errors}

-- `json::parse` and `j.value(key, default)` of nlohmann::json; `none` is an exception.
pub record JsonParser (W J : Type 0) : Type 0 where
  pub parse : List ℕ → Option J
  pub value_int : J → String → ℤ → Option ℤ
  pub value_double : J → String → W → Option W
  pub value_string : J → String → String → Option String

-- The counters of `UdpReceiver::Impl`.
pub record Receiver : Type 0 where
  pub running : Bool
  pub received_count : ℕ
  pub parse_error_count : ℕ
  pub queue_full_count : ℕ

-- The receiver with what its thread shares.
pub record Station (W : Type 0) : Type 0 where
  pub receiver : Receiver
  pub output_queue : MessageQueue (SensorData W)
  pub metrics : Metrics

-- The conversion of an `int` to `uint32_t`.
abbrev pub to_uint32 : ℤ → ℕ
to_uint32 (pos n) = n % 2 ^ 32
to_uint32 (negsuc n) = 2 ^ 32 - 1 - n % 2 ^ 32

-- `recvfrom` with room for `sizeof(buffer) - 1` bytes.
abbrev pub buffer_room : ℕ
buffer_room = 4095

unfoldable pub fill_buffer : ℕ → List ℕ → List ℕ
fill_buffer zero bytes = []
fill_buffer (suc room) [] = []
fill_buffer (suc room) (b ∷ bytes) = b ∷ fill_buffer room bytes

-- The buffer read as a C string: up to the first 0.
unfoldable pub c_string : List ℕ → List ℕ
c_string [] = []
c_string (b ∷ bytes) = if b == 0 then [] else b ∷ c_string bytes

module _ {W : Type 0} ⦃d : Double W⦄ where
  open d use {lit, neg, lt, le}

  pub validate_sensor_data : SensorData W → Bool
  validate_sensor_data sample =
      if sample.crossbow_id == 0
      then false
      else if le sample.arrow_velocity (lit 0 0) || gt sample.arrow_velocity (lit 500 0)
      then false
      else if lt sample.range (lit 0 0) || gt sample.range (lit 5000 0)
      then false
      else if lt sample.bow_string_tension (lit 0 0)
      then false
      else if lt sample.bow_arm_deformation (lit 0 0)
      then false
      else if lt sample.aim_angle (neg (lit 90 0)) || gt sample.aim_angle (lit 90 0)
      then false
      else if lt sample.temperature (neg (lit 50 0)) || gt sample.temperature (lit 150 0)
      then false
      else if lt sample.wind_speed (lit 0 0) || gt sample.wind_speed (lit 100 0)
      then false
      else true

module _ {W J : Type 0} ⦃d : Double W⦄ (json : JsonParser W J) where
  open d use {lit}
  open json use {parse, value_int, value_double, value_string}

  -- The fields of the message, each with its default.
  pub read_sensor_data : ℕ → J → Option (SensorData W)
  read_sensor_data now j = do
    crossbow_id ← value_int j "crossbow_id" (pos 0)
    crossbow_name ← value_string j "crossbow_name" ""
    bow_string_tension ← value_double j "bow_string_tension" (lit 0 0)
    bow_arm_deformation ← value_double j "bow_arm_deformation" (lit 0 0)
    arrow_velocity ← value_double j "arrow_velocity" (lit 0 0)
    range ← value_double j "range" (lit 0 0)
    spread_x ← value_double j "spread_x" (lit 0 0)
    spread_y ← value_double j "spread_y" (lit 0 0)
    aim_angle ← value_double j "aim_angle" (lit 0 0)
    temperature ← value_double j "temperature" (lit 25 0)
    humidity ← value_double j "humidity" (lit 50 0)
    wind_speed ← value_double j "wind_speed" (lit 0 0)
    wind_direction ← value_double j "wind_direction" (lit 0 0)
    some (record {
      timestamp = now;
      crossbow_id = to_uint32 crossbow_id;
      crossbow_name = crossbow_name;
      bow_string_tension = bow_string_tension;
      bow_arm_deformation = bow_arm_deformation;
      arrow_velocity = arrow_velocity;
      range = range;
      spread_x = spread_x;
      spread_y = spread_y;
      aim_angle = aim_angle;
      temperature = temperature;
      humidity = humidity;
      wind_speed = wind_speed;
      wind_direction = wind_direction;
    })

  -- A sample that does not parse or does not pass the validation is counted as an error.
  abbrev count_error : Station W → Station W
  count_error s = record s {
    receiver = record (s.receiver) { parse_error_count = increment s.receiver.parse_error_count };
    metrics = increment_udp_errors s.metrics;
  }

  abbrev count_pushed : Bool → Station W → Station W
  count_pushed true s = record s {
    receiver = record (s.receiver) { received_count = increment s.receiver.received_count };
    metrics = increment_udp_received s.metrics;
  }
  count_pushed false s = record s {
    receiver = record (s.receiver) { queue_full_count = increment s.receiver.queue_full_count };
  }

  -- A sample that was read: validated, pushed, counted.
  pub take_sample : SensorData W → Station W → Station W
  take_sample sample s =
      if not (validate_sensor_data sample)
      then count_error s
      else let (accepted, queue) = push_item sample s.output_queue in
        count_pushed accepted (record s { output_queue = queue })

  -- The bytes in the buffer, in the `try` block and its handler.
  pub take_bytes : ℕ → List ℕ → Station W → Station W
  take_bytes now bytes s = elim (parse (c_string bytes) >>= read_sensor_data now) [
    | none ↦ count_error s
    | some sample ↦ take_sample sample s
  ]

  -- One round of the loop: nothing happens where no byte is received.
  pub handle_datagram : ℕ × List ℕ → Station W → Station W
  handle_datagram (now, bytes) s = elim (fill_buffer buffer_room bytes) [
    | [] ↦ s
    | b ∷ rest ↦ take_bytes now (b ∷ rest) s
  ]

  -- The datagrams of a run, in the order of arrival.
  pub receive_all : List (ℕ × List ℕ) → Station W → Station W
  receive_all [] s = s
  receive_all (packet ∷ packets) s = receive_all packets (handle_datagram packet s)

-- `stop`: the flag, and the output queue's.
pub stop : {W : Type 0} → Station W → Station W
stop s = record s {
  receiver = record (s.receiver) { running = false };
  output_queue = MessageQueue.stop s.output_queue;
}
