-- ===== src/ClickHouseStorage/Runs.antt =====
-- Any calls of the storage of backend/src/clickhouse_storage.cpp, one after the other, and what their answers
-- say of its tables.
use ai_solo_coder_task_b.Prelude.{
  ℕ, ◌≡◌, refl, sym, ap, ◌∙◌, inl, inr, true, false, Bool, not, Bool-cases, List, [], ◌∷◌, ◌++◌,
  arith, append_assoc, append-nil,
}
use ai_solo_coder_task_b.Sensor.{
  SensorData, CrossbowType, Alert, ShotRecord, AccuracyAnalysis, TrajectoryPoint,
}
use ai_solo_coder_task_b.ClickHouseStorage.{
  ClickHouseStorage, append_row, insert_sensor_data, insert_each, insert_sensor_batch, insert_alert,
  insert_shot_record, insert_trajectory_data, insert_accuracy_analysis, insert_crossbow_type,
}
use ai_solo_coder_task_b.ClickHouseStorage as Storage
use ai_solo_coder_task_b.ClickHouseStorage.Retention.{Keeps, append_row-Keeps, insert_each-Keeps}

pub data Call (W : Type 0) : Type 0 where
  connect : Call W
  disconnect : Call W
  register : CrossbowType W → Call W
  sample : SensorData W → Call W
  batch : List (SensorData W) → Call W
  alert : Alert W → Call W
  trajectory : ℕ → List (TrajectoryPoint W) → Call W
  shot : ShotRecord W → Call W
  analysis : AccuracyAnalysis W → Call W

append_nil-Keeps :
    {A : Type 0} (limit cut : ℕ) (history rows : List A)
    → Keeps limit cut history rows
    → Keeps limit cut (history ++ []) rows
append_nil-Keeps limit cut history rows k = rw append-nil k

module _ {W : Type 0} where
  -- A call with its answer; `disconnect` has none, and counts as done.
  pub call : Call W → ClickHouseStorage W → Bool × ClickHouseStorage W
  unfolding Storage.connect Storage.disconnect insert_crossbow_type insert_sensor_data
      insert_sensor_batch insert_alert insert_trajectory_data insert_shot_record
      insert_accuracy_analysis
  call connect s = Storage.connect s
  call disconnect s = (true, Storage.disconnect s)
  call (register type) s = insert_crossbow_type type s
  call (sample x) s = insert_sensor_data x s
  call (batch xs) s = insert_sensor_batch xs s
  call (alert a) s = insert_alert a s
  call (trajectory id points) s = insert_trajectory_data id points s
  call (shot record_) s = insert_shot_record record_ s
  call (analysis a) s = insert_accuracy_analysis a s

  pub run : List (Call W) → ClickHouseStorage W → List Bool × ClickHouseStorage W
  unfolding call
  run [] s = ([], s)
  run (c ∷ calls) s =
      let (answer, s') = call c s in let (answers, s'') = run calls s' in (answer ∷ answers, s'')

  -- What a caller holds for stored, from what it was answered.
  abbrev pub samples_of : Call W → Bool → List (SensorData W)
  samples_of (sample x) true = x ∷ []
  samples_of (batch xs) true = xs
  samples_of _ _ = []

  abbrev pub alerts_of : Call W → Bool → List (Alert W)
  alerts_of (alert a) true = a ∷ []
  alerts_of _ _ = []

  abbrev pub types_of : Call W → List (CrossbowType W)
  types_of (register type) = type ∷ []
  types_of _ = []

  -- The connection after a call, and the answer that it decides.
  abbrev pub link_of : Call W → Bool → Bool
  link_of connect link = true
  link_of disconnect link = false
  link_of _ link = link

  abbrev pub answer_of : Call W → Bool → Bool
  answer_of connect link = true
  answer_of disconnect link = true
  answer_of (register type) link = true
  answer_of (sample x) link = link
  answer_of (batch xs) link = link
  answer_of (alert a) link = link
  answer_of (trajectory id points) link = not link
  answer_of (shot r) link = not link
  answer_of (analysis a) link = not link

  -- The same over a run.
  abbrev pub all_samples : List (Call W) → List Bool → List (SensorData W)
  all_samples (c ∷ calls) (answer ∷ answers) = samples_of c answer ++ all_samples calls answers
  all_samples _ _ = []

  abbrev pub all_alerts : List (Call W) → List Bool → List (Alert W)
  all_alerts (c ∷ calls) (answer ∷ answers) = alerts_of c answer ++ all_alerts calls answers
  all_alerts _ _ = []

  abbrev pub all_types : List (Call W) → List (CrossbowType W)
  all_types [] = []
  all_types (c ∷ calls) = types_of c ++ all_types calls

  abbrev pub all_answers : List (Call W) → Bool → List Bool
  all_answers [] link = []
  all_answers (c ∷ calls) link = answer_of c link ∷ all_answers calls (link_of c link)

  abbrev pub last_link : List (Call W) → Bool → Bool
  last_link [] link = link
  last_link (c ∷ calls) link = last_link calls (link_of c link)

  -- The tables of a storage that was told to store these rows, and whether it is connected.
  pub record IsStored (samples : List (SensorData W)) (alerts : List (Alert W))
      (types : List (CrossbowType W)) (link : Bool) (s : ClickHouseStorage W) : Type 0 where
    pub samples_kept : Keeps 50_000 10_000 samples s.sensor_data
    pub alerts_kept : Keeps 1000 500 alerts s.alerts
    pub types_kept : s.crossbow_types ≡ types
    pub linked : s.connected ≡ link

  insert_each-others :
      (xs : List (SensorData W)) (s : ClickHouseStorage W)
      → ((insert_each xs s).alerts ≡ s.alerts)
        × ((insert_each xs s).crossbow_types ≡ s.crossbow_types)
        × ((insert_each xs s).connected ≡ s.connected)
  unfolding insert_each insert_sensor_data
  insert_each-others [] s = (refl, refl, refl)
  insert_each-others (x ∷ xs) s = elim (Bool-cases s.connected) [
    | inl c ↦ rw c (insert_each-others xs _)
    | inr c ↦ rw c (insert_each-others xs _)
  ]

  module _ (xs : List (SensorData W)) (al : List (Alert W)) (ts : List (CrossbowType W)) where
    -- The tables are the same, and so is the storage but for its connection.
    unchanged :
        (link now : Bool) (s : ClickHouseStorage W)
        → IsStored xs al ts link s
        → IsStored (xs ++ []) (al ++ []) (ts ++ []) now (record s { connected = now })
    unchanged link now s h = record {
      samples_kept = append_nil-Keeps 50_000 10_000 xs s.sensor_data h.samples_kept;
      alerts_kept = append_nil-Keeps 1000 500 al s.alerts h.alerts_kept;
      types_kept = h.types_kept ∙ sym (append-nil ts);
      linked = refl;
    }

    -- The tables after a call, and its answer.
    abbrev Stores : Call W → Bool → Bool × ClickHouseStorage W → Type 0
    Stores c link (answer, s) =
        (answer ≡ answer_of c link)
        × IsStored (xs ++ samples_of c answer) (al ++ alerts_of c answer) (ts ++ types_of c)
            (link_of c link) s

    sample-Stores :
        (x : SensorData W) (link : Bool) (s : ClickHouseStorage W)
        → IsStored xs al ts link s
        → Stores (sample x) link (insert_sensor_data x s)
    unfolding insert_sensor_data
    sample-Stores x true s h = rw (h.linked) (
      refl,
      record {
        samples_kept =
            append_row-Keeps 50_000 10_000 xs s.sensor_data x (omega arith) (omega arith)
              h.samples_kept;
        alerts_kept = append_nil-Keeps 1000 500 al s.alerts h.alerts_kept;
        types_kept = h.types_kept ∙ sym (append-nil ts);
        linked = refl;
      },
    )
    sample-Stores x false s h = rw (h.linked) (refl, unchanged false false s h)

    alert-Stores :
        (a : Alert W) (link : Bool) (s : ClickHouseStorage W)
        → IsStored xs al ts link s
        → Stores (alert a) link (insert_alert a s)
    unfolding insert_alert
    alert-Stores a true s h = rw (h.linked) (
      refl,
      record {
        samples_kept = append_nil-Keeps 50_000 10_000 xs s.sensor_data h.samples_kept;
        alerts_kept =
            append_row-Keeps 1000 500 al s.alerts a (omega arith) (omega arith) h.alerts_kept;
        types_kept = h.types_kept ∙ sym (append-nil ts);
        linked = refl;
      },
    )
    alert-Stores a false s h = rw (h.linked) (refl, unchanged false false s h)

    batch-Stores :
        (l : List (SensorData W)) (link : Bool) (s : ClickHouseStorage W)
        → IsStored xs al ts link s
        → Stores (batch l) link (insert_sensor_batch l s)
    unfolding insert_sensor_batch
    batch-Stores l true s h =
        let t : ClickHouseStorage W = record s { connected = true } in
        let others = insert_each-others l t in
        rw (h.linked) (
          refl,
          record {
            samples_kept = insert_each-Keeps l xs t refl h.samples_kept;
            alerts_kept = rw (others.0) (append_nil-Keeps 1000 500 al s.alerts h.alerts_kept);
            types_kept = others.1 ∙ h.types_kept ∙ sym (append-nil ts);
            linked = others.2;
          },
        )
    batch-Stores l false s h = rw (h.linked) (refl, unchanged false false s h)

    register-Stores :
        (type : CrossbowType W) (link : Bool) (s : ClickHouseStorage W)
        → IsStored xs al ts link s
        → Stores (register type) link (insert_crossbow_type type s)
    unfolding insert_crossbow_type
    register-Stores type link s h = (
      refl,
      record {
        samples_kept = append_nil-Keeps 50_000 10_000 xs s.sensor_data h.samples_kept;
        alerts_kept = append_nil-Keeps 1000 500 al s.alerts h.alerts_kept;
        types_kept = ap (λ types. types ++ (type ∷ [])) h.types_kept;
        linked = h.linked;
      },
    )

    call-Stores :
        (c : Call W) (link : Bool) (s : ClickHouseStorage W)
        → IsStored xs al ts link s
        → Stores c link (call c s)
    unfolding call Storage.connect Storage.disconnect insert_trajectory_data insert_shot_record
        insert_accuracy_analysis
    call-Stores connect link s h = (refl, unchanged link true s h)
    call-Stores disconnect link s h = (refl, unchanged link false s h)
    call-Stores (register type) link s h = register-Stores type link s h
    call-Stores (sample x) link s h = sample-Stores x link s h
    call-Stores (batch l) link s h = batch-Stores l link s h
    call-Stores (alert a) link s h = alert-Stores a link s h
    call-Stores (trajectory id points) true s h = rw (h.linked) (refl, unchanged true true s h)
    call-Stores (trajectory id points) false s h = rw (h.linked) (refl, unchanged false false s h)
    call-Stores (shot r) true s h = rw (h.linked) (refl, unchanged true true s h)
    call-Stores (shot r) false s h = rw (h.linked) (refl, unchanged false false s h)
    call-Stores (analysis a) true s h = rw (h.linked) (refl, unchanged true true s h)
    call-Stores (analysis a) false s h = rw (h.linked) (refl, unchanged false false s h)

  -- Of any calls on a storage in order, each is answered as the last `connect` or `disconnect` before it
  -- decides: samples, batches and alerts are refused without a connection, trajectories, shots and analyses
  -- with one. Of the samples and the alerts that the answers call stored, after those of before, the tables
  -- keep the newest in their order: at most 50000 samples, and all of them or at least 40001, and at most
  -- 1000 alerts, and all or at least 501. All types registered are kept, and nothing else is stored.
  pub run-IsStored :
      (calls : List (Call W)) (xs : List (SensorData W)) (al : List (Alert W))
      (ts : List (CrossbowType W)) (link : Bool) (s : ClickHouseStorage W)
      → IsStored xs al ts link s
      → let (answers, s') = run calls s in
        (answers ≡ all_answers calls link)
        × IsStored
            (xs ++ all_samples calls answers)
            (al ++ all_alerts calls answers)
            (ts ++ all_types calls)
            (last_link calls link)
            s'
  unfolding run
  run-IsStored [] xs al ts link s h = (refl, rw (append-nil xs, append-nil al, append-nil ts) h)
  run-IsStored (c ∷ calls) xs al ts link s h =
      let (answer, s') = call c s in
      let answers = (run calls s').0 in
      let stored = call-Stores xs al ts c link s h in
      let rest =
        run-IsStored calls (xs ++ samples_of c answer) (al ++ alerts_of c answer) (ts ++ types_of c)
          (link_of c link) s' stored.1 in
      (
        ap (λ a. a ∷ answers) stored.0 ∙ ap (λ l. answer_of c link ∷ l) rest.0,
        rw
            (
              ← append_assoc xs (samples_of c answer) (all_samples calls answers),
              ← append_assoc al (alerts_of c answer) (all_alerts calls answers),
              ← append_assoc ts (types_of c) (all_types calls),
            )
            (rest.1),
      )
