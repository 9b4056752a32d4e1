-- ===== src/UdpReceiver/Accepted.antt =====
-- What the receiver puts into its queue.
use ai_solo_coder_task_b.Prelude.{
  ℕ, ◌≡◌, refl, sym, ap, ◌∙◌, inl, inr, true, Option-cases, Option, none, some, List, [], ◌∷◌, ◌++◌,
  arith, ◌>>=◌, keep_last, All, All-append, All-keep_last, if◌then◌else◌,
}
use ai_solo_coder_task_b.Double.{Double}
use ai_solo_coder_task_b.Sensor.{SensorData}
use ai_solo_coder_task_b.MessageQueue.{MessageQueue, IsValid, push_item, push_all}
use ai_solo_coder_task_b.MessageQueue.Order.{queue-push_all, push_all-append}
use ai_solo_coder_task_b.UdpReceiver.Buffer.{
  fill_buffer-nil, fill_buffer-cons, handle_datagram-nil, handle_datagram-cons,
}
use ai_solo_coder_task_b.UdpReceiver.{
  JsonParser, Station, buffer_room, fill_buffer, c_string, validate_sensor_data, read_sensor_data,
  take_sample, take_bytes, handle_datagram, receive_all,
}

-- The sample passes the validation.
abbrev pub Passes : {W : Type 0} ⦃d : Double W⦄ → SensorData W → Type 0
Passes x = validate_sensor_data x ≡ true

module _ {W J : Type 0} ⦃d : Double W⦄ (json : JsonParser W J) where
  abbrev kept : Option (SensorData W) → List (SensorData W)
  kept none = []
  kept (some x) = if validate_sensor_data x then x ∷ [] else []

  abbrev decode : ℕ → List ℕ → List (SensorData W)
  decode now [] = []
  decode now (b ∷ bytes) = kept (json.parse (c_string (b ∷ bytes)) >>= read_sensor_data json now)

  -- The samples of the datagrams that parse and pass the validation, in order.
  abbrev pub accepted : List (ℕ × List ℕ) → List (SensorData W)
  accepted [] = []
  accepted ((now, bytes) ∷ packets) = decode now (fill_buffer buffer_room bytes) ++ accepted packets

  -- The queue after the samples `xs` are pushed.
  abbrev pushed_on : List (SensorData W) → Station W → MessageQueue (SensorData W)
  pushed_on xs s = push_all xs s.output_queue

  take_sample-queue :
      (x : SensorData W) (s : Station W)
      → (take_sample json x s).output_queue ≡ pushed_on (kept (some x)) s
  unfolding take_sample push_item
  take_sample-queue x s = ground arith

  take_bytes-queue :
      (now : ℕ) (bytes : List ℕ) (s : Station W)
      → (take_bytes json now bytes s).output_queue
        ≡ pushed_on (kept (json.parse (c_string bytes) >>= read_sensor_data json now)) s
  unfolding take_bytes
  take_bytes-queue now bytes s =
      elim (Option-cases (json.parse (c_string bytes) >>= read_sensor_data json now)) [
        | inl e ↦ rw (e, take_bytes)
        | inr (x, e) ↦ rw (e, take_bytes) (take_sample-queue x s)
      ]

  handle_datagram-queue :
      (now : ℕ) (bytes : List ℕ) (s : Station W)
      → (handle_datagram json (now, bytes) s).output_queue
        ≡ pushed_on (decode now (fill_buffer buffer_room bytes)) s
  handle_datagram-queue now [] s = rw (handle_datagram-nil json now s, fill_buffer-nil buffer_room)
  handle_datagram-queue now (b ∷ bytes) s =
      let (rest, e) = fill_buffer-cons buffer_room b bytes (omega arith) in
      rw (handle_datagram-cons json now b bytes s, e) (take_bytes-queue now (b ∷ rest) s)

  receive_all-pushed_on :
      (packets : List (ℕ × List ℕ)) (s : Station W)
      → (receive_all json packets s).output_queue ≡ pushed_on (accepted packets) s
  unfolding receive_all
  receive_all-pushed_on [] s = refl
  receive_all-pushed_on ((now, bytes) ∷ packets) s =
      receive_all-pushed_on packets (handle_datagram json (now, bytes) s)
      ∙ ap (λ q. push_all (accepted packets) q) (handle_datagram-queue now bytes s)
      ∙ sym (
          push_all-append (decode now (fill_buffer buffer_room bytes)) (accepted packets)
            s.output_queue)

  -- With no consumer the queue ends with the newest samples, as many as its capacity, of those that
  -- were there and those of the datagrams that parse and pass the validation, in order of arrival.
  pub queue-receive_all :
      (packets : List (ℕ × List ℕ)) (s : Station W)
      → IsValid s.output_queue
      → (receive_all json packets s).output_queue.queue
        ≡ keep_last s.output_queue.capacity (s.output_queue.queue ++ accepted packets)
  queue-receive_all packets s v =
      ap (λ q. q.queue) (receive_all-pushed_on packets s)
      ∙ queue-push_all (accepted packets) s.output_queue v

  kept-Passes : (o : Option (SensorData W)) → All Passes (kept o)
  kept-Passes none = tt
  kept-Passes (some x) = ground arith

  decode-Passes : (now : ℕ) (bytes : List ℕ) → All Passes (decode now bytes)
  decode-Passes now [] = tt
  decode-Passes now (b ∷ bytes) = kept-Passes _

  accepted-Passes : (packets : List (ℕ × List ℕ)) → All Passes (accepted packets)
  accepted-Passes [] = tt
  accepted-Passes ((now, bytes) ∷ packets) =
      All-append Passes _ _ (decode-Passes now (fill_buffer buffer_room bytes))
        (accepted-Passes packets)

  -- No sample that fails the validation reaches the queue.
  pub receive_all-Passes :
      (packets : List (ℕ × List ℕ)) (s : Station W)
      → IsValid s.output_queue
      → All Passes s.output_queue.queue
      → All Passes (receive_all json packets s).output_queue.queue
  receive_all-Passes packets s v old =
      rw (queue-receive_all packets s v)
        (All-keep_last Passes _ _ (All-append Passes _ _ old (accepted-Passes packets)))
