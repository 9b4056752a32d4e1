-- ===== src/Sensor/History.antt =====
-- The samples that a service took, and the windows of them that it keeps by crossbow.
use ai_solo_coder_task_b.Prelude.{
  ℕ, ◌≡◌, refl, sym, ap, ◌∙◌, Bool, true, false, List, [], ◌∷◌, ◌++◌, arith, ◌==◌, ==_iff,
  if◌then◌else◌, keep_last, keep_last-append, append-nil,
}
use ai_solo_coder_task_b.Prelude.Map.{Map, find_or, insert, find_or-insert}
use ai_solo_coder_task_b.Sensor.{SensorData}

module _ {W : Type 0} where
  -- The samples of one crossbow.
  abbrev pub of_crossbow : ℕ → List (SensorData W) → List (SensorData W)
  of_crossbow id [] = []
  of_crossbow id (x ∷ xs) =
      let rest = of_crossbow id xs in if x.crossbow_id == id then x ∷ rest else rest

  pub of_crossbow-append :
      (id : ℕ) (xs ys : List (SensorData W))
      → of_crossbow id (xs ++ ys) ≡ of_crossbow id xs ++ of_crossbow id ys
  of_crossbow-append id [] ys = refl
  of_crossbow-append id (x ∷ xs) ys = ground (arith, of_crossbow-append id xs ys)

  -- The newest `n` samples of a crossbow.
  abbrev pub window : ℕ → ℕ → List (SensorData W) → List (SensorData W)
  window n id history = keep_last n (of_crossbow id history)

  -- A map that holds the window of every crossbow.
  abbrev pub Windows : ℕ → List (SensorData W) → Map (List (SensorData W)) → Type 0
  Windows n history m = (id : ℕ) → find_or id m [] ≡ window n id history

  -- One more sample, appended to its crossbow's list, which is then trimmed.
  pub insert-Windows :
      (n : ℕ) (history : List (SensorData W)) (m : Map (List (SensorData W))) (x : SensorData W)
      → Windows n history m
      → Windows n
          (history ++ (x ∷ []))
          (insert x.crossbow_id (keep_last n (find_or x.crossbow_id m [] ++ (x ∷ []))) m)
  insert-Windows n history m x w id =
      find_or-insert x.crossbow_id id _ [] m
      ∙ updated (x.crossbow_id == id) refl
      ∙ sym (ap (λ l. keep_last n l) (of_crossbow-append id history (x ∷ [])))
    where
      updated :
          (same : Bool)
          → (x.crossbow_id == id) ≡ same
          → (if same then keep_last n (find_or x.crossbow_id m [] ++ (x ∷ [])) else find_or id m [])
            ≡ keep_last n (of_crossbow id history ++ (if same then x ∷ [] else []))
      updated true e =
          ap (λ k. keep_last n (find_or k m [] ++ (x ∷ []))) ((==_iff x.crossbow_id id).0 e)
          ∙ ap (λ l. keep_last n (l ++ (x ∷ []))) (w id)
          ∙ keep_last-append n (of_crossbow id history) (x ∷ [])
      updated false e = w id ∙ sym (ap (λ l. keep_last n l) (append-nil (of_crossbow id history)))
