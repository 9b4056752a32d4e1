-- ===== src/BowstringMaterial.antt =====
-- backend/src/bowstring_material.cpp: what is computed of one material. The materials are in Materials, the
-- database in Database, the shots and comparisons in Analyzer.
pub mod Materials
pub mod Database
pub mod Analyzer
pub mod Curves
pub mod Accuracy
pub mod Best
pub mod Interpolation
pub mod Data
mod Tests
use ai_solo_coder_task_b.Prelude.{Option, none, some, List, [], ◌∷◌, ◌++◌, if◌then◌else◌}
use ai_solo_coder_task_b.Prelude.Int.{ℤ}
use ai_solo_coder_task_b.Prelude.Sorting.{sort}
use ai_solo_coder_task_b.Double.{Double, ◌⊕◌, ◌⊖◌, ◌⊗◌, ◌⊘◌, pi, max, min, clamp}
use Materials.{BowstringMaterial, MaterialDataPoint}

module _ {W : Type 0} ⦃d : Double W⦄ where
  open d use {lit, neg, lt, le, of_int, sqrt, exp, pow, abs}

  unfoldable pub calculate_string_mass : BowstringMaterial W → W → W
  calculate_string_mass mat length_m =
      let radius_m = mat.thickness_mm ⊘ lit 2 0 ⊗ lit 1 3 in
      let cross_section_m2 = pi ⊗ radius_m ⊗ radius_m ⊗ of_int mat.strand_count in
      mat.density ⊗ length_m ⊗ cross_section_m2

  unfoldable pub calculate_stiffness : BowstringMaterial W → W → W → W
  calculate_stiffness mat length_m cross_section_m2 =
      if le length_m (lit 0 0) then lit 0 0 else (mat.young_modulus ⊗ cross_section_m2) ⊘ length_m

  unfoldable pub calculate_wave_speed : W → W → W
  calculate_wave_speed tension_N linear_density =
      if le linear_density (lit 0 0) then lit 0 0 else sqrt (tension_N ⊘ linear_density)

  unfoldable pub calculate_damping_force : BowstringMaterial W → W → W → W
  calculate_damping_force mat velocity length_m =
      let base_damping = mat.damping_coefficient ⊗ abs velocity in
      let length_factor = lit 1 0 ⊕ lit 3 1 ⊗ (length_m ⊖ lit 1 0) in
      let velocity_exponent = lit 115 2 ⊕ lit 1 1 ⊗ min (lit 1 0) (abs velocity ⊘ lit 100 0) in
      base_damping ⊗ length_factor ⊗ pow (abs velocity ⊕ lit 1 6) (velocity_exponent ⊖ lit 1 0)

  unfoldable pub calculate_efficiency_at_pull : BowstringMaterial W → W → W
  calculate_efficiency_at_pull mat pull_ratio =
      let r = clamp pull_ratio (lit 0 0) (lit 1 0) in
      let baseline = mat.energy_efficiency in
      let gaussian_envelope = exp (neg (pow ((r ⊖ lit 7 1) ⊘ lit 5 1) (lit 2 0))) in
      let min_efficiency = baseline ⊗ lit 75 2 in
      let efficiency_variation = baseline ⊖ min_efficiency in
      min_efficiency ⊕ efficiency_variation ⊗ (lit 3 1 ⊕ lit 7 1 ⊗ gaussian_envelope)

  unfoldable pub calculate_creep_factor : BowstringMaterial W → W → W → W
  calculate_creep_factor mat hours_under_load temperature_c =
      let temp_factor =
        lit 1 0 ⊕ mat.temperature_coefficient ⊗ max (lit 0 0) (temperature_c ⊖ lit 20 0) in
      let creep_rate = mat.elongation_at_break ⊗ lit 1 4 ⊗ temp_factor in
      let time_factor = lit 1 0 ⊖ exp (neg hours_under_load ⊘ lit 1000 0) in
      lit 1 0 ⊕ creep_rate ⊗ time_factor ⊗ lit 100 0

  unfoldable pub estimate_lifespan : BowstringMaterial W → ℤ → W → W
  estimate_lifespan mat cycles_per_day avg_humidity =
      let humidity_factor =
        lit 1 0 ⊘ (lit 1 0 ⊕ mat.moisture_sensitivity ⊗ max (lit 0 0) (avg_humidity ⊖ lit 4 1)) in
      let cycle_factor = pow (lit 1000 0 ⊘ (of_int cycles_per_day ⊕ lit 1 0)) (lit 7 1) in
      let base_lifespan_days =
        mat.fatigue_life_cycles ⊘ (of_int cycles_per_day ⊗ lit 365 0 ⊕ lit 1 0) in
      base_lifespan_days ⊗ humidity_factor ⊗ cycle_factor ⊗ lit 365 0

  unfoldable pub linear_interpolate : W → W → W → W → W → W
  linear_interpolate x x0 y0 x1 y1 =
      if lt (abs (x1 ⊖ x0)) (lit 1 12)
      then y0
      else (let t = (x ⊖ x0) ⊘ (x1 ⊖ x0) in y0 ⊕ t ⊗ (y1 ⊖ y0))

  unfoldable pub add_experimental_point :
      MaterialDataPoint W → BowstringMaterial W → BowstringMaterial W
  add_experimental_point point mat = record mat {
    experimental_data =
        sort (λ a b. lt a.pull_ratio b.pull_ratio) (mat.experimental_data ++ (point ∷ []));
  }

  unfoldable pub sort_experimental_data : BowstringMaterial W → BowstringMaterial W
  sort_experimental_data mat = record mat {
    experimental_data = sort (λ a b. lt a.pull_ratio b.pull_ratio) mat.experimental_data;
  }

  -- `experimental_data.back()` of a first point and those behind it.
  abbrev pub back : MaterialDataPoint W → List (MaterialDataPoint W) → MaterialDataPoint W
  back p [] = p
  back p (q ∷ ps) = back q ps

  -- The loop of the four functions below: the first point, behind the one in hand, that is not before `x`,
  -- and what lies between it and the point in front of it.
  unfoldable pub segment :
      (MaterialDataPoint W → W)
      → (MaterialDataPoint W → W)
      → W
      → MaterialDataPoint W
      → List (MaterialDataPoint W)
      → Option W
  unfolding linear_interpolate
  segment key value x p [] = none
  segment key value x p (q ∷ ps) =
      let rest = segment key value x q ps in
      if le x (key q) then some (linear_interpolate x (key p) (value p) (key q) (value q)) else rest

  -- A value from the points `p ∷ ps`; `low` is the value up to the first, `otherwise` the one for which
  -- the loop ends.
  unfoldable pub from_points :
      (MaterialDataPoint W → W)
      → (MaterialDataPoint W → W)
      → W
      → W
      → W
      → MaterialDataPoint W
      → List (MaterialDataPoint W)
      → W
  unfolding segment
  from_points key value low otherwise x p ps =
      if le x (key p)
      then low
      else if le (key (back p ps)) x
      then value (back p ps)
      else elim (segment key value x p ps) [ none ↦ otherwise | some y ↦ y ]

  unfoldable pub interpolate_stress : BowstringMaterial W → W → W
  unfolding from_points
  interpolate_stress mat strain = elim mat.experimental_data [
    | [] ↦ mat.young_modulus ⊗ max (lit 0 0) strain
    | p ∷ ps ↦
        let s = min strain mat.elongation_at_break in
        if le strain (lit 0 0)
        then mat.young_modulus ⊗ max (lit 0 0) strain
        else from_points (λ q. q.strain) (λ q. q.stress_pa) (p.stress_pa ⊗ (s ⊘ p.strain))
            (mat.young_modulus ⊗ s) s p ps
  ]

  unfoldable pub interpolate_strain : BowstringMaterial W → W → W
  unfolding from_points
  interpolate_strain mat stress_pa = elim mat.experimental_data [
    | [] ↦ stress_pa ⊘ max mat.young_modulus (lit 1 0)
    | p ∷ ps ↦
        let s = min stress_pa mat.tensile_strength in
        if le stress_pa (lit 0 0)
        then stress_pa ⊘ max mat.young_modulus (lit 1 0)
        else from_points (λ q. q.stress_pa) (λ q. q.strain) (p.strain ⊗ (s ⊘ p.stress_pa))
            (s ⊘ mat.young_modulus) s p ps
  ]

  unfoldable pub interpolate_efficiency : BowstringMaterial W → W → W
  unfolding from_points calculate_efficiency_at_pull
  interpolate_efficiency mat pull_ratio = elim mat.experimental_data [
    | [] ↦ calculate_efficiency_at_pull mat pull_ratio
    | p ∷ ps ↦
        from_points (λ q. q.pull_ratio) (λ q. q.efficiency) p.efficiency mat.energy_efficiency
          (clamp pull_ratio (lit 0 0) (lit 1 0)) p ps
  ]

  unfoldable pub interpolate_damping : BowstringMaterial W → W → W
  unfolding from_points
  interpolate_damping mat pull_ratio = elim mat.experimental_data [
    | [] ↦ mat.damping_coefficient
    | p ∷ ps ↦
        from_points (λ q. q.pull_ratio) (λ q. q.damping_factor) p.damping_factor
          mat.damping_coefficient (clamp pull_ratio (lit 0 0) (lit 1 0)) p ps
  ]
