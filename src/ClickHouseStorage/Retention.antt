-- ===== src/ClickHouseStorage/Retention.antt =====
-- Which rows the tables of backend/src/clickhouse_storage.cpp keep.
use ai_solo_coder_task_b.Prelude.{
  ℕ, ◌+◌, ◌-◌, ◌≤◌, ◌<◌, ◌≡◌, refl, sym, ap, ◌∙◌, ◌⊎◌, ltb→lt, inl, inr, true, Bool-cases, List, [],
  ◌∷◌, ◌++◌, arith, ltb, length, length-append, drop, length-drop, drop-append, drop-drop,
  append_assoc, append-nil,
}
use ai_solo_coder_task_b.Sensor.{SensorData}
use ai_solo_coder_task_b.ClickHouseStorage.{
  ClickHouseStorage, append_row, insert_sensor_data, insert_each, insert_sensor_batch,
}

-- The rows of a table whose history is `history`: the newest of them, at most `limit`, and all of
-- them or at least `limit + 1 - batch`.
pub record Keeps {A : Type 0} (limit batch : ℕ) (history rows : List A) : Type 0 where
  pub dropped : ℕ
  pub in_range : dropped ≤ length history
  pub newest : rows ≡ drop dropped history
  pub bounded : length rows ≤ limit
  pub enough : (dropped ≡ 0) ⊎ (limit + 1 - batch ≤ length rows)

pub append_row-Keeps :
    {A : Type 0} (limit batch : ℕ) (history rows : List A) (row : A)
    → 0 < batch
    → batch ≤ limit
    → Keeps limit batch history rows
    → Keeps limit batch (history ++ (row ∷ [])) (append_row limit batch rows row)
unfolding append_row
append_row-Keeps limit batch history rows row p small k =
    elim (Bool-cases (ltb limit (length (rows ++ (row ∷ []))))) [
      | inl over ↦ rw over (record {
        dropped = k.dropped + batch;
        in_range = omega (
          arith,
          longer,
          k.in_range,
          length-append history (row ∷ []),
          length-drop k.dropped history,
          ap length k.newest,
          ltb→lt _ _ over,
        );
        newest = ap (drop batch) appended ∙ drop-drop batch k.dropped (history ++ (row ∷ []));
        bounded = omega (arith, longer, length-drop batch (rows ++ (row ∷ [])));
        enough =
            inr (omega (arith, longer, length-drop batch (rows ++ (row ∷ [])), ltb→lt _ _ over));
      })
      | inr under ↦ rw under (record {
        dropped = k.dropped;
        in_range = omega (arith, k.in_range, length-append history (row ∷ []));
        newest = appended;
        bounded = ground arith;
        enough = still k.enough;
      })
    ]
  where
    longer : length (rows ++ (row ∷ [])) ≡ length rows + 1
    longer = length-append rows (row ∷ [])

    still :
        (k.dropped ≡ 0) ⊎ (limit + 1 - batch ≤ length rows)
        → (k.dropped ≡ 0) ⊎ (limit + 1 - batch ≤ length (rows ++ (row ∷ [])))
    still (inl all) = inl all
    still (inr most) = inr (omega (arith, longer))

    appended : rows ++ (row ∷ []) ≡ drop k.dropped (history ++ (row ∷ []))
    appended =
        ap (λ xs. xs ++ (row ∷ [])) k.newest
        ∙ sym (drop-append k.dropped history (row ∷ []) k.in_range)

module _ {W : Type 0} where
  insert_each-connected :
      (batch : List (SensorData W)) (s : ClickHouseStorage W)
      → s.connected ≡ true
      → (insert_each batch s).connected ≡ true
  unfolding insert_each insert_sensor_data
  insert_each-connected [] s c = c
  insert_each-connected (x ∷ batch) s c = insert_each-connected batch _ (ground arith)

  insert_sensor_data-Keeps :
      (x : SensorData W) (history : List (SensorData W)) (s : ClickHouseStorage W)
      → s.connected ≡ true
      → Keeps 50_000 10_000 history s.sensor_data
      → Keeps 50_000 10_000 (history ++ (x ∷ [])) (insert_sensor_data x s).1.sensor_data
  unfolding insert_sensor_data
  insert_sensor_data-Keeps x history s c k =
      rw c (append_row-Keeps 50_000 10_000 history s.sensor_data x (omega arith) (omega arith) k)

  pub insert_each-Keeps :
      (batch history : List (SensorData W)) (s : ClickHouseStorage W)
      → s.connected ≡ true
      → Keeps 50_000 10_000 history s.sensor_data
      → Keeps 50_000 10_000 (history ++ batch) (insert_each batch s).sensor_data
  unfolding insert_each
  insert_each-Keeps [] history s c k = rw append-nil k
  insert_each-Keeps (x ∷ batch) history s c k =
      let k' = insert_sensor_data-Keeps x history s c k in
      rw (← append_assoc history (x ∷ []) batch)
        (insert_each-Keeps batch (history ++ (x ∷ [])) _ (insert_each-connected (x ∷ []) s c) k')

  -- While connected, a batch succeeds and the table keeps the newest rows of its history: at most
  -- 50000 of them, and all of them or at least 40001.
  pub insert_sensor_batch-Keeps :
      (batch history : List (SensorData W)) (s : ClickHouseStorage W)
      → s.connected ≡ true
      → Keeps 50_000 10_000 history s.sensor_data
      → let (ok, s') = insert_sensor_batch batch s in
        (ok ≡ true) × Keeps 50_000 10_000 (history ++ batch) s'.sensor_data
  unfolding insert_sensor_batch
  insert_sensor_batch-Keeps batch history s c k =
      simp c (refl, insert_each-Keeps batch history s c k)
