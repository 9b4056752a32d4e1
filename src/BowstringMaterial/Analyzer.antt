-- ===== src/BowstringMaterial/Analyzer.antt =====
-- The class BowstringPerformanceAnalyzer of backend/src/bowstring_material.cpp. The identifier and the time of a
-- simulated shot, and its record as declared, are an argument.
use Prim.Native.String.{String}
use ai_solo_coder_task_b.Prelude.{ℕ, Bool, true, false, ◌&&◌, List, [], ◌∷◌, if◌then◌else◌}
use ai_solo_coder_task_b.Prelude.Int.{pos}
use ai_solo_coder_task_b.Double.{Double, ◌⊕◌, ◌⊖◌, ◌⊗◌, ◌⊘◌, pi, max}
use ai_solo_coder_task_b.Sensor.{CrossbowType, ShotRecord}
use ai_solo_coder_task_b.DynamicsModel.Flight.{simulate_trajectory}
use ai_solo_coder_task_b.DynamicsModel.Results.{calculate_shot_results}
use ai_solo_coder_task_b.BowstringMaterial.Materials.{
  BowstringMaterial, BowstringMaterialType, unknown, sinew, horn, silk, hemp, custom,
}
use ai_solo_coder_task_b.BowstringMaterial.{
  calculate_string_mass, calculate_wave_speed, calculate_efficiency_at_pull, calculate_creep_factor,
  estimate_lifespan,
}
use ai_solo_coder_task_b.BowstringMaterial.Database.{get}

pub record BowstringPerformanceAnalyzer (W : Type 0) : Type 0 where
  pub crossbow : CrossbowType W
  pub draw_distance_m : W
  pub arrow_mass_kg : W
  pub string_length_m : W
  pub strand_cross_section_m2 : W

pub record BowstringShotResult (W : Type 0) : Type 0 where
  pub material_type : BowstringMaterialType
  pub string_mass : W
  pub actual_energy_efficiency : W
  pub damping_loss_joules : W
  pub creep_stretch_mm : W
  pub remaining_life_cycles : W
  pub vibration_decay_time_s : W
  pub wave_speed_mps : W
  pub core_record : ShotRecord W

pub record PerMaterialMetrics (W : Type 0) : Type 0 where
  pub material : BowstringMaterial W
  pub estimated_muzzle_velocity : W
  pub estimated_energy : W
  pub max_tension_before_break : W
  pub string_mass : W
  pub damping_loss_ratio : W
  pub lifespan_days : W
  pub accuracy_penalty_factor : W

pub record MaterialComparisonResult (W : Type 0) : Type 0 where
  pub materials : List (PerMaterialMetrics W)
  pub crossbow_name : String
  pub crossbow_draw_weight_kg : W
  pub reference_velocity : W
  pub timestamp_ms : ℕ

abbrev pub is_unknown : BowstringMaterialType → Bool
is_unknown unknown = true
is_unknown sinew = false
is_unknown horn = false
is_unknown silk = false
is_unknown hemp = false
is_unknown custom = false

-- The four kinds that are compared where no others are named.
abbrev pub all_types : List BowstringMaterialType
all_types = sinew ∷ horn ∷ silk ∷ hemp ∷ []

module _ {W : Type 0} ⦃d : Double W⦄ where
  open d use {lit, neg, lt, le, of_int, sqrt, tanh}

  -- The constructor, and `set_crossbow`, which sets the same members.
  unfoldable pub create : CrossbowType W → BowstringPerformanceAnalyzer W
  create crossbow = record {
    crossbow = crossbow;
    draw_distance_m = lit 75 2 ⊗ crossbow.bow_length;
    arrow_mass_kg = crossbow.arrow_mass;
    string_length_m = lit 2 0 ⊗ crossbow.string_length;
    strand_cross_section_m2 = lit 0 0;
  }

  unfoldable pub set_draw_distance :
      W → BowstringPerformanceAnalyzer W → BowstringPerformanceAnalyzer W
  set_draw_distance draw_distance_m s = record s { draw_distance_m = max (lit 1 1) draw_distance_m }

  unfoldable pub set_arrow_mass :
      W → BowstringPerformanceAnalyzer W → BowstringPerformanceAnalyzer W
  set_arrow_mass arrow_mass_g s = record s {
    arrow_mass_kg = max (lit 5 3) (arrow_mass_g ⊗ lit 1 3);
  }

  unfoldable pub calculate_max_possible_tension : BowstringMaterial W → W
  calculate_max_possible_tension mat =
      let strand_radius_m = mat.thickness_mm ⊗ lit 1 3 ⊘ lit 2 0 in
      let per_strand_area = pi ⊗ strand_radius_m ⊗ strand_radius_m in
      mat.tensile_strength ⊗ per_strand_area ⊗ of_int mat.strand_count ⊗ lit 8 1

  unfoldable pub estimate_velocity_from_energy :
      BowstringPerformanceAnalyzer W → BowstringMaterial W → W → W → W
  unfolding calculate_string_mass calculate_efficiency_at_pull
  estimate_velocity_from_energy s mat draw_energy_j arrow_mass_kg =
      let string_mass = calculate_string_mass mat s.string_length_m in
      let effective_mass = arrow_mass_kg ⊕ string_mass ⊗ lit 25 2 in
      let efficiency = calculate_efficiency_at_pull mat (lit 1 0) in
      let usable_energy = draw_energy_j ⊗ efficiency in
      sqrt (lit 2 0 ⊗ usable_energy ⊘ effective_mass)

  -- The velocity at which `simulate_shot` lets the arrow go, and the angle, in radians, that it passes
  -- on; the model of the flight takes degrees.
  unfoldable pub muzzle_velocity : BowstringPerformanceAnalyzer W → BowstringMaterial W → W
  unfolding calculate_string_mass calculate_efficiency_at_pull
  muzzle_velocity s material =
      let draw_energy_j =
        lit 5 1 ⊗ s.crossbow.draw_weight ⊗ s.draw_distance_m ⊗ (lit 2 0 ⊘ lit 3 0) in
      let string_mass = calculate_string_mass material s.string_length_m in
      let effective_mass_kg = s.arrow_mass_kg ⊕ string_mass ⊗ lit 28 2 in
      let usable_energy = draw_energy_j ⊗ calculate_efficiency_at_pull material (lit 1 0) in
      sqrt (lit 2 0 ⊗ usable_energy ⊘ effective_mass_kg)

  unfoldable pub simulate_shot :
      ShotRecord W
      → BowstringPerformanceAnalyzer W
      → BowstringMaterial W
      → W
      → BowstringShotResult W
  unfolding calculate_string_mass calculate_wave_speed calculate_efficiency_at_pull
      calculate_creep_factor muzzle_velocity simulate_trajectory calculate_shot_results
  simulate_shot fresh s material launch_angle_deg =
      let draw_weight_N = s.crossbow.draw_weight in
      let draw_energy_j = lit 5 1 ⊗ draw_weight_N ⊗ s.draw_distance_m ⊗ (lit 2 0 ⊘ lit 3 0) in
      let string_mass = calculate_string_mass material s.string_length_m in
      let actual_efficiency = calculate_efficiency_at_pull material (lit 1 0) in
      let trajectory =
        simulate_trajectory s.crossbow (muzzle_velocity s material)
          (launch_angle_deg ⊗ pi ⊘ lit 180 0) (lit 0 0) (lit 0 0) (lit 1 3) in
      let core = calculate_shot_results s.crossbow fresh trajectory in
      record {
        material_type = material.material_type;
        string_mass = string_mass;
        actual_energy_efficiency = actual_efficiency;
        damping_loss_joules = draw_energy_j ⊗ (lit 1 0 ⊖ actual_efficiency) ⊗ lit 6 1;
        creep_stretch_mm = calculate_creep_factor material (lit 2 0) (lit 25 0) ⊗ lit 5 2;
        remaining_life_cycles = max (lit 0 0) (material.fatigue_life_cycles ⊖ lit 1000 0);
        vibration_decay_time_s =
            string_mass ⊘ (lit 2 0 ⊗ material.damping_coefficient ⊕ lit 1 6) ⊗ lit 10 0;
        wave_speed_mps = calculate_wave_speed draw_weight_N (string_mass ⊘ s.string_length_m);
        core_record = record core {
          shot_id = fresh.shot_id;
          timestamp = fresh.timestamp;
          crossbow_id = s.crossbow.id;
        };
      }

  unfoldable pub material_metrics :
      ShotRecord W → BowstringPerformanceAnalyzer W → W → BowstringMaterial W → PerMaterialMetrics W
  unfolding simulate_shot calculate_max_possible_tension estimate_lifespan
  material_metrics fresh s launch_angle_deg material =
      let shot_result = simulate_shot fresh s material launch_angle_deg in
      let velocity = shot_result.core_record.initial_velocity in
      let loss =
        shot_result.damping_loss_joules
        ⊘ (lit 5 1 ⊗ s.crossbow.draw_weight ⊗ s.draw_distance_m ⊕ lit 1 6) in
      let accuracy_penalty =
        lit 0 0
        ⊕ shot_result.string_mass ⊗ lit 2 0
        ⊕ loss ⊗ lit 10 0
        ⊕ material.damping_coefficient ⊗ lit 5 1 in
      record {
        material = material;
        estimated_muzzle_velocity = velocity;
        estimated_energy = lit 5 1 ⊗ s.arrow_mass_kg ⊗ velocity ⊗ velocity;
        max_tension_before_break = calculate_max_possible_tension material;
        string_mass = shot_result.string_mass;
        damping_loss_ratio = loss;
        lifespan_days = estimate_lifespan material (pos 200) (lit 5 1);
        accuracy_penalty_factor = lit 1 0 ⊕ tanh (accuracy_penalty ⊘ lit 20 0);
      }

  -- The materials of the types, those left out that are not in the database.
  unfoldable pub metrics_of :
      ShotRecord W
      → BowstringPerformanceAnalyzer W
      → W
      → List BowstringMaterialType
      → List (PerMaterialMetrics W)
  unfolding material_metrics get
  metrics_of fresh s launch_angle_deg [] = []
  metrics_of fresh s launch_angle_deg (t ∷ types) =
      let rest = metrics_of fresh s launch_angle_deg types in
      let material = get t in
      if is_unknown material.material_type
      then rest
      else material_metrics fresh s launch_angle_deg material ∷ rest

  -- `reference_velocity == 0.0` lets the next velocity take its place.
  unfoldable pub reference_from : W → List (PerMaterialMetrics W) → W
  reference_from velocity [] = velocity
  reference_from velocity (metrics ∷ rest) =
      reference_from
        (if le velocity (lit 0 0) && le (lit 0 0) velocity
          then metrics.estimated_muzzle_velocity
          else velocity)
        rest

  unfoldable pub compare_materials :
      ℕ
      → ShotRecord W
      → BowstringPerformanceAnalyzer W
      → List BowstringMaterialType
      → W
      → MaterialComparisonResult W
  unfolding metrics_of reference_from
  compare_materials now_ms fresh s material_types launch_angle_deg =
      let materials = metrics_of fresh s launch_angle_deg material_types in
      record {
        materials = materials;
        crossbow_name = s.crossbow.name;
        crossbow_draw_weight_kg = s.crossbow.draw_weight;
        reference_velocity = reference_from (lit 0 0) materials;
        timestamp_ms = now_ms;
      }

  unfoldable pub compare_all_materials :
      ℕ → ShotRecord W → BowstringPerformanceAnalyzer W → W → MaterialComparisonResult W
  unfolding compare_materials
  compare_all_materials now_ms fresh s launch_angle_deg =
      compare_materials now_ms fresh s all_types launch_angle_deg
