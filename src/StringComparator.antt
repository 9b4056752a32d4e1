-- ===== src/StringComparator.antt =====
-- backend/src/modules/string_comparator.cpp and its header: the comparison of strings by a weighed score.
-- The recommendation is in Optimum.
pub mod Optimum
pub mod Ranking
pub mod Sensitivity
mod Tests
use Prim.Native.String.{String, ◌++◌ as append}
use ai_solo_coder_task_b.Prelude.{
  ℕ, zero, suc, ◌+◌, ◌-◌, Bool, true, false, List, [], ◌∷◌, map, if◌then◌else◌,
}
use ai_solo_coder_task_b.Prelude.Int.{ℤ, pos, negsuc}
use ai_solo_coder_task_b.Prelude.Sorting.{sort}
use ai_solo_coder_task_b.Double.{Double, ◌⊕◌, ◌⊖◌, ◌⊗◌, ◌⊘◌, pi, max, min, clamp, gt, of_size}
use ai_solo_coder_task_b.BowstringMaterial.Materials.{
  BowstringMaterial, BowstringMaterialType, unknown,
}
use ai_solo_coder_task_b.BowstringMaterial.{
  calculate_string_mass, calculate_stiffness, calculate_creep_factor, estimate_lifespan,
  interpolate_efficiency,
}
use ai_solo_coder_task_b.BowstringMaterial.Database.{get}
use ai_solo_coder_task_b.BowstringMaterial.Analyzer.{is_unknown, all_types}
use ai_solo_coder_task_b.BowstringMaterial.Curves.{points_from}

pub record StringComparisonMetric (W : Type 0) : Type 0 where
  pub material_type : BowstringMaterialType
  pub name : String
  pub string_mass_g : W
  pub stiffness_Nm : W
  pub energy_efficiency : W
  pub stored_energy_J : W
  pub estimated_velocity_ms : W
  pub max_stress_MPa : W
  pub fatigue_life_cycles : W
  pub creep_factor : W
  pub overall_score : W

pub record StringOptimizationResult (W : Type 0) : Type 0 where
  pub best_material : BowstringMaterial W
  pub best_score : W
  pub rankings : List (StringComparisonMetric W)
  pub recommendation : String

pub record StringComparisonConfig (W : Type 0) : Type 0 where
  pub string_length_m : W
  pub string_diameter_mm : W
  pub draw_length_m : W
  pub draw_weight_N : W
  pub arrow_mass_g : W
  pub avg_humidity : W
  pub cycles_per_day : W
  pub weight_mass : W
  pub weight_efficiency : W
  pub weight_velocity : W
  pub weight_lifespan : W
  pub weight_creep : W

module _ {W : Type 0} ⦃d : Double W⦄ where
  open d use {lit, lt, le, sqrt, abs, trunc}

  abbrev pub default_config : StringComparisonConfig W
  default_config = record {
    string_length_m = lit 12 1;
    string_diameter_mm = lit 3 0;
    draw_length_m = lit 55 2;
    draw_weight_N = lit 350 0;
    arrow_mass_g = lit 50 0;
    avg_humidity = lit 5 1;
    cycles_per_day = lit 100 0;
    weight_mass = lit 15 2;
    weight_efficiency = lit 30 2;
    weight_velocity = lit 25 2;
    weight_lifespan = lit 20 2;
    weight_creep = lit 10 2;
  }

  unfoldable pub normalize : W → W → W → Bool → W
  normalize value low high higher_is_better =
      if lt (abs (high ⊖ low)) (lit 1 12)
      then lit 5 1
      else (let normalized = (clamp value (min low high) (max low high) ⊖ low) ⊘ (high ⊖ low) in
          if higher_is_better then normalized else lit 1 0 ⊖ normalized)

  unfoldable pub estimate_stored_energy : StringComparisonConfig W → BowstringMaterial W → W
  unfolding interpolate_efficiency
  estimate_stored_energy config mat =
      let draw_energy_j =
        lit 5 1 ⊗ config.draw_weight_N ⊗ config.draw_length_m ⊗ (lit 2 0 ⊘ lit 3 0) in
      draw_energy_j ⊗ interpolate_efficiency mat (lit 1 0)

  unfoldable pub estimate_velocity : StringComparisonConfig W → BowstringMaterial W → W
  unfolding calculate_string_mass estimate_stored_energy
  estimate_velocity config mat =
      let string_mass_kg = calculate_string_mass mat config.string_length_m in
      let arrow_mass_kg = config.arrow_mass_g ⊗ lit 1 3 in
      let effective_mass = arrow_mass_kg ⊕ string_mass_kg ⊗ lit 25 2 in
      if le effective_mass (lit 0 0)
      then lit 0 0
      else sqrt (lit 2 0 ⊗ estimate_stored_energy config mat ⊘ effective_mass)

  unfoldable pub evaluate_material :
      StringComparisonConfig W → BowstringMaterial W → StringComparisonMetric W
  unfolding calculate_string_mass calculate_stiffness calculate_creep_factor estimate_lifespan
      interpolate_efficiency estimate_stored_energy estimate_velocity
  evaluate_material config material =
      let radius_m = config.string_diameter_mm ⊘ lit 2 0 ⊗ lit 1 3 in
      let cross_section_m2 = pi ⊗ radius_m ⊗ radius_m in
      record {
        material_type = material.material_type;
        name = material.name;
        string_mass_g = calculate_string_mass material config.string_length_m ⊗ lit 1000 0;
        stiffness_Nm = calculate_stiffness material config.string_length_m cross_section_m2;
        energy_efficiency = interpolate_efficiency material (lit 1 0);
        stored_energy_J = estimate_stored_energy config material;
        estimated_velocity_ms = estimate_velocity config material;
        max_stress_MPa = config.draw_weight_N ⊘ max cross_section_m2 (lit 1 12) ⊘ lit 1000000 0;
        fatigue_life_cycles =
            estimate_lifespan material (trunc config.cycles_per_day) config.avg_humidity;
        creep_factor = calculate_creep_factor material (lit 24 0) (lit 25 0);
        overall_score = lit 0 0;
      }

  -- The materials of the types, evaluated, those left out that are not in the database.
  unfoldable pub evaluate_all :
      StringComparisonConfig W → List BowstringMaterialType → List (StringComparisonMetric W)
  unfolding evaluate_material get
  evaluate_all config [] = []
  evaluate_all config (t ∷ types) =
      let rest = evaluate_all config types in
      let metric = evaluate_material config (get t) in
      if is_unknown metric.material_type then rest else metric ∷ rest

  -- `get_minmax`, from the values so far.
  unfoldable pub get_minmax :
      (StringComparisonMetric W → W) → W × W → List (StringComparisonMetric W) → W × W
  get_minmax extractor range [] = range
  get_minmax extractor range (m ∷ all) =
      get_minmax extractor (min range.0 (extractor m), max range.1 (extractor m)) all

  -- A value of a metric against the least and the greatest of all.
  unfoldable pub normalize_in :
      (StringComparisonMetric W → W)
      → Bool
      → StringComparisonMetric W
      → StringComparisonMetric W
      → List (StringComparisonMetric W)
      → W
  unfolding normalize get_minmax
  normalize_in extractor higher_is_better metric front all =
      let range = get_minmax extractor (extractor front, extractor front) all in
      normalize (extractor metric) range.0 range.1 higher_is_better

  unfoldable pub compute_overall_score :
      StringComparisonConfig W → StringComparisonMetric W → List (StringComparisonMetric W) → W
  unfolding normalize_in
  compute_overall_score config metric [] = lit 0 0
  compute_overall_score config metric (front ∷ others) =
      let all = front ∷ others in
      let norm_mass = normalize_in (λ m. m.string_mass_g) false metric front all in
      let norm_eff = normalize_in (λ m. m.energy_efficiency) true metric front all in
      let norm_vel = normalize_in (λ m. m.estimated_velocity_ms) true metric front all in
      let norm_life = normalize_in (λ m. m.fatigue_life_cycles) true metric front all in
      let norm_creep = normalize_in (λ m. m.creep_factor) false metric front all in
      let total_weight =
        config.weight_mass ⊕ config.weight_efficiency ⊕ config.weight_velocity
        ⊕ config.weight_lifespan ⊕ config.weight_creep in
      (norm_mass ⊗ config.weight_mass
        ⊕ norm_eff ⊗ config.weight_efficiency
        ⊕ norm_vel ⊗ config.weight_velocity
        ⊕ norm_life ⊗ config.weight_lifespan
        ⊕ norm_creep ⊗ config.weight_creep)
      ⊘ (if le total_weight (lit 0 0) then lit 1 0 else total_weight)

  abbrev with_score : W → StringComparisonMetric W → StringComparisonMetric W
  with_score score metric = record metric { overall_score = score }

  -- Each score is written into its metric; the scores are not among the values compared.
  unfoldable pub scored :
      StringComparisonConfig W → List (StringComparisonMetric W) → List (StringComparisonMetric W)
  unfolding compute_overall_score
  scored config all = map (λ m. with_score (compute_overall_score config m all) m) all

  abbrev pub ranks_before : StringComparisonMetric W → StringComparisonMetric W → Bool
  ranks_before a b = gt a.overall_score b.overall_score

  unfoldable pub compare_materials :
      StringComparisonConfig W → List BowstringMaterialType → List (StringComparisonMetric W)
  unfolding evaluate_all scored
  compare_materials config types = sort ranks_before (scored config (evaluate_all config types))

  unfoldable pub compare_all_materials : StringComparisonConfig W → List (StringComparisonMetric W)
  unfolding compare_materials
  compare_all_materials config = compare_materials config all_types
