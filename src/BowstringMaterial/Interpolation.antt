-- ===== src/BowstringMaterial/Interpolation.antt =====
-- The values that backend/src/bowstring_material.cpp reads off the measured points.
use ai_solo_coder_task_b.Prelude.{
  ◌≡◌, refl, subst, sym, ◌⊎◌, inl, inr, true, false, Option, none, some, List, [], ◌∷◌, Bool-cases,
  arith,
}
use ai_solo_coder_task_b.Double.{Double, IsOrdered, IsNumber, clamp}
use ai_solo_coder_task_b.BowstringMaterial.Materials.{BowstringMaterial, MaterialDataPoint}
use ai_solo_coder_task_b.BowstringMaterial.{
  back, segment, linear_interpolate, from_points, interpolate_efficiency,
}

module _ {W : Type 0} ⦃d : Double W⦄ (key : MaterialDataPoint W → W) (x : W) where
  open d use {lt, le}

  -- Two neighbours of the points with `x` behind the one and not behind the other.
  pub data Brackets
      : MaterialDataPoint W
        → List (MaterialDataPoint W)
        → MaterialDataPoint W
        → MaterialDataPoint W
        → Type 0 where
    here :
        {p q : MaterialDataPoint W} {ps : List (MaterialDataPoint W)}
        → le x (key p) ≡ false
        → le x (key q) ≡ true
        → Brackets p (q ∷ ps) p q
    later :
        {p q a b : MaterialDataPoint W} {ps : List (MaterialDataPoint W)}
        → Brackets q ps a b
        → Brackets p (q ∷ ps) a b

  module _ (value : MaterialDataPoint W → W) where
    abbrev pub between : MaterialDataPoint W → MaterialDataPoint W → W
    between a b = linear_interpolate x (key a) (value a) (key b) (value b)

    -- The point found lies on the line between two neighbours.
    abbrev pub Found : MaterialDataPoint W → List (MaterialDataPoint W) → Option W → Type 0
    Found p ps none = ⊥
    Found p ps (some y) = (a b : MaterialDataPoint W) × Brackets p ps a b × (y ≡ between a b)

    later-Found :
        (p q : MaterialDataPoint W) (ps : List (MaterialDataPoint W)) (o : Option W)
        → Found q ps o
        → Found p (q ∷ ps) o
    later-Found p q ps none h = h
    later-Found p q ps (some y) (a, b, h, e) = (a, b, later h, e)

    segment-first :
        (p q : MaterialDataPoint W) (ps : List (MaterialDataPoint W))
        → le x (key q) ≡ true
        → segment key value x p (q ∷ ps) ≡ some (between p q)
    unfolding segment
    segment-first p q ps e = rw e refl

    segment-next :
        (p q : MaterialDataPoint W) (ps : List (MaterialDataPoint W))
        → le x (key q) ≡ false
        → segment key value x p (q ∷ ps) ≡ segment key value x q ps
    unfolding segment
    segment-next p q ps e = rw e refl

    -- Where `x` is behind the first point and not behind the last one, the loop finds it.
    segment-Found :
        (p : MaterialDataPoint W) (ps : List (MaterialDataPoint W))
        → le x (key p) ≡ false
        → le x (key (back p ps)) ≡ true
        → Found p ps (segment key value x p ps)
    segment-Found p [] low high = ground arith
    segment-Found p (q ∷ ps) low high = elim (Bool-cases (le x (key q))) [
      | inl t ↦ subst (Found p (q ∷ ps)) (sym (segment-first p q ps t)) (p, q, here low t, refl)
      | inr f ↦
          subst (Found p (q ∷ ps)) (sym (segment-next p q ps f))
            (later-Found p q ps (segment key value x q ps) (segment-Found q ps f high))
    ]

    Found-value :
        (p : MaterialDataPoint W) (ps : List (MaterialDataPoint W)) (otherwise : W) (o : Option W)
        → Found p ps o
        → (a b : MaterialDataPoint W) × Brackets p ps a b
          × ((elim o [ none ↦ otherwise | some y ↦ y ]) ≡ between a b)
    Found-value p ps otherwise none h = ground arith
    Found-value p ps otherwise (some y) h = h

    -- Up to the first point the value is `low`, from the last on its own, and in between it lies on the line
    -- between two neighbours.
    abbrev pub Interpolates : W → MaterialDataPoint W → List (MaterialDataPoint W) → W → Type 0
    Interpolates low p ps y =
        ((le x (key p) ≡ true) × (y ≡ low))
        ⊎ (((le (key (back p ps)) x ≡ true) × (y ≡ value (back p ps)))
            ⊎ ((a b : MaterialDataPoint W) × Brackets p ps a b × (y ≡ between a b)))

    from_points-Interpolates :
        IsOrdered W
        → (low otherwise : W) (p : MaterialDataPoint W) (ps : List (MaterialDataPoint W))
        → IsNumber x
        → IsNumber (key (back p ps))
        → Interpolates low p ps (from_points key value low otherwise x p ps)
    unfolding from_points
    from_points-Interpolates o low otherwise p ps n k = elim (Bool-cases (le x (key p))) [
      | inl t ↦ inl (t, rw t refl)
      | inr f ↦ elim (Bool-cases (le (key (back p ps)) x)) [
        | inl t ↦ inr (inl (t, rw (f, t) refl))
        | inr g ↦
            let high = o.lt_le x (key (back p ps)) ((o.not_le (key (back p ps)) x k n).0 g) in
            let (a, b, h, e) =
              Found-value p ps otherwise (segment key value x p ps) (segment-Found p ps f high) in
            inr (inr (a, b, h, rw (f, g) e))
      ]
    ]

module _ {W : Type 0} ⦃d : Double W⦄ where
  -- The efficiency at a pull is the first point's up to it, the last point's from it on, and in between it
  -- lies on the line between two neighbouring points, one before the pull and one not: the loop does not end
  -- without a point, where the pull and the last point's are numbers.
  pub interpolate_efficiency-Interpolates :
      IsOrdered W
      → (mat : BowstringMaterial W) (pull_ratio : W) (p : MaterialDataPoint W)
        (ps : List (MaterialDataPoint W))
      → mat.experimental_data ≡ p ∷ ps
      → IsNumber (clamp pull_ratio (d.lit 0 0) (d.lit 1 0))
      → IsNumber (back p ps).pull_ratio
      → Interpolates
          (λ q. q.pull_ratio)
          (clamp pull_ratio (d.lit 0 0) (d.lit 1 0))
          (λ q. q.efficiency)
          p.efficiency
          p
          ps
          (interpolate_efficiency mat pull_ratio)
  unfolding interpolate_efficiency
  interpolate_efficiency-Interpolates o mat pull_ratio p ps points n k =
      rw (points, interpolate_efficiency)
        (from_points-Interpolates (λ q. q.pull_ratio) (clamp pull_ratio (d.lit 0 0) (d.lit 1 0))
          (λ q. q.efficiency) o p.efficiency mat.energy_efficiency p ps n k)
