-- ===== src/BallisticSimulator/Recent.antt =====
-- The recent samples of a crossbow are a window of what the workers took.
use ai_solo_coder_task_b.Prelude.{
  drop_start, drop-nil, ==_iff, ℕ, ◌-◌, ◌≤◌, ◌≡◌, refl, sym, ap, ◌∙◌, Bool, true, false, Bool-cases,
  inl, inr, Option, none, some, List, [], ◌∷◌, ◌++◌, arith, ltb, ◌==◌, if◌then◌else◌, length,
  length-append, drop, drop_congr, keep_last, keep_last_all, keep_last-append, length-keep_last,
  append_assoc, append-nil,
}
use ai_solo_coder_task_b.Prelude.Map.{find, find_or, find_or-insert}
use ai_solo_coder_task_b.Double.{Double}
use ai_solo_coder_task_b.Sensor.History.{of_crossbow}
use ai_solo_coder_task_b.Sensor.{SensorData, ShotRecord}
use ai_solo_coder_task_b.BallisticSimulator.{
  BallisticResult, BallisticSimulator, trim_recent, work, work_all, get_trajectory_points,
}

module _ {A : Type 0} where
  trim_recent-keep_last : (xs : List A) → length xs ≤ 1001 → trim_recent xs ≡ keep_last 1000 xs
  unfolding trim_recent
  trim_recent-keep_last xs h = elim (Bool-cases (ltb 1000 (length xs))) [
    | inl over ↦ rw over (drop_congr {m = 1} {n = length xs - 1000} xs (ground arith))
    | inr under ↦ rw under (sym (keep_last_all 1000 xs (ground arith)))
  ]

module _ {W : Type 0} where
  abbrev pub recent : ℕ → BallisticSimulator W → List (SensorData W)
  recent id s = find_or id s.recent_trajectories []

  get_trajectory_points-recent :
      (id n : ℕ) (s : BallisticSimulator W)
      → get_trajectory_points id n s ≡ keep_last n (recent id s)
  unfolding get_trajectory_points find_or
  get_trajectory_points-recent id n s = window (find id s.recent_trajectories)
    where
      window :
          (o : Option (List (SensorData W)))
          → elim o [
            | none ↦ []
            | some xs ↦ drop (if ltb n (length xs) then length xs - n else 0) xs
          ]
            ≡ keep_last n (elim o [ none ↦ [] | some xs ↦ xs ])
      window none = sym (drop-nil (0 - n))
      window (some xs) = drop_start n xs

module _ {W : Type 0} ⦃d : Double W⦄ (blank : BallisticResult W) (fresh : ShotRecord W) where
  recent-work :
      (id : ℕ) (x : SensorData W) (s : BallisticSimulator W)
      → length (recent id s) ≤ 1000
      → recent id (work blank fresh x s) ≡ keep_last 1000 (recent id s ++ of_crossbow id (x ∷ []))
  unfolding work
  recent-work id x s h =
      find_or-insert x.crossbow_id id _ [] s.recent_trajectories
      ∙ updated (x.crossbow_id == id) refl
    where
      updated :
          (same : Bool)
          → (x.crossbow_id == id) ≡ same
          → (if same then trim_recent (recent x.crossbow_id s ++ (x ∷ [])) else recent id s)
            ≡ keep_last 1000 (recent id s ++ (if same then x ∷ [] else []))
      updated true e =
          ap (λ k. trim_recent (recent k s ++ (x ∷ []))) ((==_iff x.crossbow_id id).0 e)
          ∙ trim_recent-keep_last _ (omega (arith, length-append (recent id s) (x ∷ [])))
      updated false e =
          sym (ap (λ l. keep_last 1000 l) (append-nil (recent id s)) ∙ keep_last_all 1000 _ h)

  of_crossbow-cons :
      (id : ℕ) (x : SensorData W) (xs : List (SensorData W))
      → of_crossbow id (x ∷ []) ++ of_crossbow id xs ≡ of_crossbow id (x ∷ xs)
  of_crossbow-cons id x xs = ground arith

  recent-work_all :
      (id : ℕ) (xs : List (SensorData W)) (s : BallisticSimulator W)
      → length (recent id s) ≤ 1000
      → recent id (work_all blank fresh xs s) ≡ keep_last 1000 (recent id s ++ of_crossbow id xs)
  recent-work_all id [] s h =
      sym (ap (λ l. keep_last 1000 l) (append-nil (recent id s)) ∙ keep_last_all 1000 _ h)
  recent-work_all id (x ∷ xs) s h =
      let one = recent-work id x s h in
      let bounded : length (recent id (work blank fresh x s)) ≤ 1000 = omega (
        arith,
        ap (λ l. length l) one,
        length-keep_last 1000 (recent id s ++ of_crossbow id (x ∷ [])),
      ) in
      recent-work_all id xs (work blank fresh x s) bounded
      ∙ ap (λ l. keep_last 1000 (l ++ of_crossbow id xs)) one
      ∙ keep_last-append 1000 (recent id s ++ of_crossbow id (x ∷ [])) (of_crossbow id xs)
      ∙ ap (λ l. keep_last 1000 l)
          (append_assoc (recent id s) (of_crossbow id (x ∷ [])) (of_crossbow id xs)
            ∙ ap (λ l. recent id s ++ l) (of_crossbow-cons id x xs))

  -- The points that a client is given are the newest, as many as it asks for, of the newest 1000 samples
  -- of its crossbow that the workers took, if there were no more than 1000 at the start.
  pub get_trajectory_points-work_all :
      (id n : ℕ) (xs : List (SensorData W)) (s : BallisticSimulator W)
      → length (recent id s) ≤ 1000
      → get_trajectory_points id n (work_all blank fresh xs s)
        ≡ keep_last n (keep_last 1000 (recent id s ++ of_crossbow id xs))
  get_trajectory_points-work_all id n xs s h =
      get_trajectory_points-recent id n (work_all blank fresh xs s)
      ∙ ap (λ l. keep_last n l) (recent-work_all id xs s h)
