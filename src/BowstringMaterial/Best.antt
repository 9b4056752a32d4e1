-- ===== src/BowstringMaterial/Best.antt =====
-- The choice of a material in backend/src/bowstring_material.cpp.
use mathlib.Core.List.Perm
use mathlib.Core.List.{Mem, mem-cons_self, mem-cons_of_mem}
use ai_solo_coder_task_b.Prelude.{
  ◌≡◌, refl, sym, subst, inl, inr, true, false, List, [], ◌∷◌, All, Bool-cases,
}
use ai_solo_coder_task_b.Double.{Double, IsOrdered, IsNumber}
use ai_solo_coder_task_b.Sensor.{ShotRecord}
use ai_solo_coder_task_b.BowstringMaterial.Materials.{BowstringMaterial}
use ai_solo_coder_task_b.BowstringMaterial.Analyzer.{BowstringPerformanceAnalyzer}
use ai_solo_coder_task_b.BowstringMaterial.Accuracy.{
  Weights, pick, candidate_score, optimize_material_for_accuracy,
}

module _ {W : Type 0} ⦃d : Double W⦄ (o : IsOrdered W) {M : Type 0} (score : M → W) where
  open d use {lt, le}

  -- The element is one of the list, and none of the list has a greater score.
  abbrev pub IsBest : M → List M → Type 0
  IsBest r mats = Mem r mats × All (λ m. le (score m) (score r) ≡ true) mats

  pick-better :
      (best m : M) (mats : List M)
      → lt (score best) (score m) ≡ true
      → pick score (score best) best (m ∷ mats) ≡ pick score (score m) m mats
  unfolding pick
  pick-better best m mats t = rw t refl

  pick-kept :
      (best m : M) (mats : List M)
      → lt (score best) (score m) ≡ false
      → pick score (score best) best (m ∷ mats) ≡ pick score (score best) best mats
  unfolding pick
  pick-kept best m mats f = rw f refl

  better-IsBest :
      (best m r : M) (mats : List M)
      → le (score best) (score m) ≡ true
      → IsBest r (m ∷ mats)
      → IsBest r (best ∷ m ∷ mats)
  better-IsBest best m r mats h rest = (
    mem-cons_of_mem best rest.0,
    (o.le_trans (score best) (score m) (score r) h rest.1.0, rest.1),
  )

  past_second : (best m r : M) (mats : List M) → Mem r (best ∷ mats) → Mem r (best ∷ m ∷ mats)
  past_second best m r mats h = Perm.subset (Perm.swap best m mats) r (mem-cons_of_mem m h)

  kept-IsBest :
      (best m r : M) (mats : List M)
      → le (score m) (score best) ≡ true
      → IsBest r (best ∷ mats)
      → IsBest r (best ∷ m ∷ mats)
  kept-IsBest best m r mats h rest = (
    past_second best m r mats rest.0,
    (rest.1.0, (o.le_trans (score m) (score best) (score r) h rest.1.0, rest.1.1)),
  )

  pick_nil : (b : M) → IsNumber (score b) → IsBest (pick score (score b) b []) (b ∷ [])
  unfolding pick
  pick_nil b k = (mem-cons_self, (k, tt))

  pick-IsBest :
      (best : M) (mats : List M)
      → IsNumber (score best)
      → All (λ m. IsNumber (score m)) mats
      → IsBest (pick score (score best) best mats) (best ∷ mats)
  pick-IsBest best [] n h = pick_nil best n
  pick-IsBest best (m ∷ mats) n h = elim (Bool-cases (lt (score best) (score m))) [
    | inl t ↦
        subst (λ r. IsBest r (best ∷ m ∷ mats)) (sym (pick-better best m mats t))
          (better-IsBest best m _ mats (o.lt_le (score best) (score m) t)
            (pick-IsBest m mats h.0 h.1))
    | inr f ↦
        subst (λ r. IsBest r (best ∷ m ∷ mats)) (sym (pick-kept best m mats f))
          (kept-IsBest best m _ mats ((o.not_lt (score best) (score m) n h.0).0 f)
            (pick-IsBest best mats n h.1))
  ]

  -- The first candidate is above the value that the loop starts from.
  pick-first :
      (lowest : W) (m : M) (mats : List M)
      → lt lowest (score m) ≡ true
      → pick score lowest m (m ∷ mats) ≡ pick score (score m) m mats
  unfolding pick
  pick-first lowest m mats t = rw t refl

module _ {W : Type 0} ⦃d : Double W⦄ (o : IsOrdered W) where
  -- Of candidates whose scores are numbers, the first above the lowest double, the one that is chosen is a
  -- candidate and none has a greater score.
  pub optimize_material_for_accuracy-IsBest :
      (lowest : W) (fresh : ShotRecord W) (s : BowstringPerformanceAnalyzer W) (weights : Weights W)
      (m : BowstringMaterial W) (mats : List (BowstringMaterial W))
      → All (λ c. IsNumber (candidate_score fresh s weights (m ∷ mats) c)) (m ∷ mats)
      → d.lt lowest (candidate_score fresh s weights (m ∷ mats) m) ≡ true
      → IsBest o
          (candidate_score fresh s weights (m ∷ mats))
          (optimize_material_for_accuracy lowest fresh s weights (m ∷ mats))
          (m ∷ mats)
  unfolding optimize_material_for_accuracy
  optimize_material_for_accuracy-IsBest lowest fresh s weights m mats numbers above =
      let score = candidate_score fresh s weights (m ∷ mats) in
      subst (λ r. IsBest o score r (m ∷ mats)) (sym (pick-first o score lowest m mats above))
        (pick-IsBest o score m mats numbers.0 numbers.1)
