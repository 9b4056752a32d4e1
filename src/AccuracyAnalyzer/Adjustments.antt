-- ===== src/AccuracyAnalyzer/Adjustments.antt =====
-- The sight adjustments: which bins have one, and what it rests on.
use mathlib.Core.List.{Sublistᴰ, Mem, mem-cons_self, mem-cons_of_mem}
use ai_solo_coder_task_b.Prelude.{
  ◌≤◌, ◌≡◌, refl, Bool, true, false, Bool-cases, inl, inr, List, [], ◌∷◌, map, arith, ltb, leb,
  ltb→lt, if◌then◌else◌, length, All,
}
use ai_solo_coder_task_b.Double.{Double}
use ai_solo_coder_task_b.Sensor.{SensorData}
use ai_solo_coder_task_b.AccuracyAnalyzer.{
  nearby_shots, adjustment, adjust_bins, range_bins, calculate_sight_adjustments,
}

module _ {W : Type 0} ⦃d : Double W⦄ where
  -- Enough shots fell near a range.
  abbrev pub IsCovered : List (SensorData W) → W → Type 0
  IsCovered shots r = 3 ≤ length (nearby_shots r shots)

  -- The adjustments of a list of bins: in the order of the bins and at most one for each, each of a
  -- covered bin and by the shots near it, and every covered bin has its own.
  abbrev pub Adjusts : List (SensorData W) → List W → List (W × W) → Type 0
  Adjusts shots bins out =
      Sublistᴰ (map (λ p. p.0) out) bins
      × All (λ p. IsCovered shots p.0 × (p.1 ≡ adjustment (nearby_shots p.0 shots))) out
      × All (λ r. IsCovered shots r → Mem (r, adjustment (nearby_shots r shots)) out) bins

  later-Mem :
      (shots : List (SensorData W)) (p : W × W) (out : List (W × W)) (bins : List W)
      → All (λ r. IsCovered shots r → Mem (r, adjustment (nearby_shots r shots)) out) bins
      → All (λ r. IsCovered shots r → Mem (r, adjustment (nearby_shots r shots)) (p ∷ out)) bins
  later-Mem shots p out [] a = tt
  later-Mem shots p out (r ∷ bins) a =
      (λ c. mem-cons_of_mem p (a.0 c), later-Mem shots p out bins a.1)

  adjust_bins-Adjusts :
      (shots : List (SensorData W)) (bins : List W) → Adjusts shots bins (adjust_bins shots bins)
  unfolding adjust_bins
  adjust_bins-Adjusts shots [] = (Sublistᴰ.slnil, tt, tt)
  adjust_bins-Adjusts shots (r ∷ bins) =
      added (leb 3 (length (nearby_shots r shots))) refl (adjust_bins shots bins)
        (adjust_bins-Adjusts shots bins)
    where
      added :
          (covered : Bool)
          → leb 3 (length (nearby_shots r shots)) ≡ covered
          → (out : List (W × W)) → Adjusts shots bins out
          → Adjusts shots
              (r ∷ bins)
              (if covered then (r, adjustment (nearby_shots r shots)) ∷ out else out)
      added true e out (s, sound, complete) = (
        Sublistᴰ.cons-cons refl s,
        ((ground arith, refl), sound),
        (λ c. mem-cons_self, later-Mem shots _ out bins complete),
      )
      added false e out (s, sound, complete) =
          (Sublistᴰ.cons s, sound, (λ c. absurd (ground arith), complete))

  -- With at least 5 shots the adjustments are those of the bins that are covered by 3 or more: one for
  -- each, in the order of the bins, from the spread of the shots near it.
  pub calculate_sight_adjustments-Adjusts :
      (shots : List (SensorData W))
      → 5 ≤ length shots
      → Adjusts shots range_bins (calculate_sight_adjustments shots)
  unfolding calculate_sight_adjustments
  calculate_sight_adjustments-Adjusts shots h = elim (Bool-cases (ltb (length shots) 5)) [
    | inl few ↦ absurd (omega (arith, ltb→lt _ _ few))
    | inr many ↦ rw many (adjust_bins-Adjusts shots range_bins)
  ]
