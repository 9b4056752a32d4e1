-- ===== src/UdpReceiver/Counts.antt =====
-- The counters of the receiver against the datagrams that arrive.
use ai_solo_coder_task_b.Prelude.{
  ℕ, suc, ◌+◌, ◌%◌, ◌^◌, ◌≡◌, inl, inr, Option-cases, List, [], ◌∷◌, arith, ◌>>=◌,
}
use native.Mathlib.Nat.{add-zero}
use ai_solo_coder_task_b.Double.{Double}
use ai_solo_coder_task_b.Sensor.{SensorData}
use ai_solo_coder_task_b.MessageQueue.{push_item}
use ai_solo_coder_task_b.Metrics.{increment_udp_received, increment_udp_errors}
use ai_solo_coder_task_b.UdpReceiver.Buffer.{handle_datagram-nil, handle_datagram-cons}
use ai_solo_coder_task_b.UdpReceiver.{
  buffer_room, JsonParser, Station, fill_buffer, c_string, read_sensor_data, take_sample,
  take_bytes, receive_all,
}

-- What the counters say after `n` datagrams that were not empty.
pub record Counted {W : Type 0} (n : ℕ) (s : Station W) : Type 0 where
  pub received : s.metrics.udp_received ≡ s.receiver.received_count
  pub errors : s.metrics.udp_errors ≡ s.receiver.parse_error_count
  pub every : (s.receiver.received_count + s.receiver.parse_error_count) % 2 ^ 64 ≡ n % 2 ^ 64
  pub none_full : s.receiver.queue_full_count ≡ 0

-- The datagrams that are not empty.
abbrev pub arrivals : List (ℕ × List ℕ) → ℕ
arrivals [] = 0
arrivals ((now, []) ∷ packets) = arrivals packets
arrivals ((now, b ∷ bytes) ∷ packets) = suc (arrivals packets)

module _ {W J : Type 0} ⦃d : Double W⦄ (json : JsonParser W J) where
  add_suc : (m n : ℕ) → m + suc n ≡ suc m + n
  add_suc m n = omega arith

  take_sample-Counted :
      (x : SensorData W) (n : ℕ) (s : Station W)
      → Counted n s
      → Counted (suc n) (take_sample json x s)
  unfolding take_sample push_item increment_udp_received increment_udp_errors
  take_sample-Counted x n s c = ground arith

  take_bytes-Counted :
      (now : ℕ) (bytes : List ℕ) (n : ℕ) (s : Station W)
      → Counted n s
      → Counted (suc n) (take_bytes json now bytes s)
  unfolding take_bytes increment_udp_errors
  take_bytes-Counted now bytes n s c =
      elim (Option-cases (json.parse (c_string bytes) >>= read_sensor_data json now)) [
        | inl e ↦ rw (e, take_bytes) (ground arith)
        | inr (x, e) ↦ rw (e, take_bytes) (take_sample-Counted x n s c)
      ]

  -- Every datagram that is not empty is counted once, as received or as an error, modulo 2 ^ 64; the
  -- metrics agree with the receiver's counters; and no sample is ever counted as dropped.
  pub receive_all-Counted :
      (packets : List (ℕ × List ℕ)) (n : ℕ) (s : Station W)
      → Counted n s
      → Counted (n + arrivals packets) (receive_all json packets s)
  unfolding receive_all
  receive_all-Counted [] n s c = rw add-zero c
  receive_all-Counted ((now, []) ∷ packets) n s c =
      rw (handle_datagram-nil json now s) (receive_all-Counted packets n s c)
  receive_all-Counted ((now, b ∷ bytes) ∷ packets) n s c =
      let first = take_bytes-Counted now (fill_buffer buffer_room (b ∷ bytes)) n s c in
      rw (handle_datagram-cons json now b bytes s, add_suc n (arrivals packets))
        (receive_all-Counted packets (suc n) _ first)
