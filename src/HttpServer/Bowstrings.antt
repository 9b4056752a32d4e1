-- ===== src/HttpServer/Bowstrings.antt =====
-- The handlers of backend/src/http_server.cpp for the strings of bows. Each makes its objects anew and changes
-- nothing but the count of requests.
use Prim.Native.String.{String}
use ai_solo_coder_task_b.Prelude.{
  Option, none, some, ◌>>=◌, List, [], ◌∷◌, map, length, if◌then◌else◌,
}
use ai_solo_coder_task_b.Prelude.Int.{ℤ, pos, negsuc}
use ai_solo_coder_task_b.Prelude.Map.{Map, find}
use ai_solo_coder_task_b.Prelude.Bytes.{utf8}
use ai_solo_coder_task_b.Double.{Double, ◌⊖◌, ◌⊗◌, ◌⊘◌, max}
use ai_solo_coder_task_b.Sensor.{CrossbowType}
use ai_solo_coder_task_b.BowstringMaterial.Materials.{BowstringMaterial, to_int, silk}
use ai_solo_coder_task_b.BowstringMaterial.Database.{get, get_by_name, list_all}
use ai_solo_coder_task_b.BowstringMaterial.Analyzer.{
  PerMaterialMetrics, MaterialComparisonResult, create, compare_all_materials, is_unknown,
}
use ai_solo_coder_task_b.BowstringMaterial.Curves.{
  calculate_efficiency_curve, calculate_lifespan_curve,
}
use ai_solo_coder_task_b.BowstringMaterial.Accuracy.{Weights, optimize_material_for_accuracy}
use ai_solo_coder_task_b.HttpServer.Json.{Json, text, num, int, array, object, nat, Library}
use ai_solo_coder_task_b.HttpServer.Request.{Params, param, stoi}
use ai_solo_coder_task_b.HttpServer.Handlers.{Reply}
use ai_solo_coder_task_b.HttpServer.{HttpServer, Ambient, increment_http_requests, double_or}

-- `find` with an `int`.
abbrev find_int : {V : Type 0} → ℤ → Map V → Option V
find_int (pos n) m = find n m
find_int (negsuc n) m = none

module _ {W : Type 0} ⦃d : Double W⦄ where
  open d use {lit}

  abbrev pub get_default_crossbow : CrossbowType W
  get_default_crossbow = record {
    id = 7;
    name = "宋神臂弩";
    dynasty = "宋朝";
    draw_weight = lit 350 0;
    bow_length = lit 175 2;
    string_length = lit 115 2;
    arrow_mass = lit 80 3;
    effective_range = lit 300 0;
    max_range = lit 520 0;
  }

  unfoldable pub material_json : BowstringMaterial W → Json W
  material_json m = object (
      ("type", nat (to_int m.material_type))
      ∷ ("name", text m.name)
      ∷ ("description", text m.description)
      ∷ ("historical_origin", text m.historical_origin)
      ∷ ("young_modulus_gpa", num (m.young_modulus ⊘ lit 1_000_000_000 0))
      ∷ ("tensile_strength_mpa", num (m.tensile_strength ⊘ lit 1_000_000 0))
      ∷ ("density", num m.density)
      ∷ ("elongation_at_break", num m.elongation_at_break)
      ∷ ("damping_coefficient", num m.damping_coefficient)
      ∷ ("energy_efficiency", num m.energy_efficiency)
      ∷ ("fatigue_life_cycles", num m.fatigue_life_cycles)
      ∷ ("moisture_sensitivity", num m.moisture_sensitivity)
      ∷ ("strand_count", int m.strand_count)
      ∷ ("thickness_mm", num m.thickness_mm)
      ∷ [])

  unfoldable pub metrics_json : W → PerMaterialMetrics W → Json W
  metrics_json reference m = object (
      ("name", text m.material.name)
      ∷ ("type", nat (to_int m.material.material_type))
      ∷ ("muzzle_velocity_mps", num m.estimated_muzzle_velocity)
      ∷ ("energy_joules", num m.estimated_energy)
      ∷ ("max_tension_newton", num m.max_tension_before_break)
      ∷ ("string_mass_grams", num (m.string_mass ⊗ lit 1000 0))
      ∷ ("damping_loss_ratio", num m.damping_loss_ratio)
      ∷ ("lifespan_days", num m.lifespan_days)
      ∷ ("accuracy_penalty_factor", num m.accuracy_penalty_factor)
      ∷ (
        "velocity_delta_pct",
        num ((m.estimated_muzzle_velocity ⊖ reference) ⊘ max (lit 1 2) reference ⊗ lit 100 0),
      )
      ∷ [])

  -- The crossbow of a comparison: the default one, the one that is named, or the first.
  unfoldable pub compared_crossbow :
      Params → Option (Map (CrossbowType W)) → Option (CrossbowType W)
  unfolding param stoi find
  compared_crossbow params none = some get_default_crossbow
  compared_crossbow params (some []) = some get_default_crossbow
  compared_crossbow params (some ((k, first) ∷ types)) = elim (param (utf8 "crossbow_id") params) [
    | none ↦ some first
    | some v ↦ do
      id ← stoi v
      some (elim (find_int id ((k, first) ∷ types)) [ none ↦ get_default_crossbow | some cb ↦ cb ])
  ]

  -- The material of a curve: the one that is named, or silk.
  unfoldable pub chosen_material : Params → BowstringMaterial W
  unfolding param get get_by_name
  chosen_material params =
      let material =
        get_by_name
          (elim (param (utf8 "material") params) [ none ↦ utf8 "silk_thread" | some v ↦ v ]) in
      if is_unknown material.material_type then get silk else material

  abbrev pairs_json : String → String → List (W × W) → Json W
  pairs_json x y points = array (map (λ p. object ((x, num p.0) ∷ (y, num p.1) ∷ [])) points)

  unfoldable pub curves_json : BowstringMaterial W → Option (Json W)
  unfolding calculate_efficiency_curve calculate_lifespan_curve
  curves_json material = do
    eff_curve ← calculate_efficiency_curve material (lit 1 1) (lit 1 0) (pos 50)
    life_curve ← calculate_lifespan_curve material (pos 365) (lit 200 0) (lit 5 1)
    some (
        object (
          ("material", text material.name)
          ∷ ("efficiency_curve", pairs_json "pull_ratio" "efficiency" eff_curve)
          ∷ ("lifespan_curve", pairs_json "day" "efficiency_remaining" life_curve)
          ∷ []))

  unfoldable pub comparison_json : W → MaterialComparisonResult W → Json W
  unfolding metrics_json
  comparison_json angle result = object (
      ("crossbow", text result.crossbow_name)
      ∷ ("draw_weight_kg", num result.crossbow_draw_weight_kg)
      ∷ ("launch_angle_deg", num angle)
      ∷ ("reference_velocity", num result.reference_velocity)
      ∷ ("timestamp_ms", nat result.timestamp_ms)
      ∷ ("results", array (map (metrics_json result.reference_velocity) result.materials))
      ∷ [])

  unfoldable pub optimum_json : Weights W → BowstringMaterial W → Json W
  optimum_json weights best = object (
      ("optimal_material", text best.name)
      ∷ ("material_type", nat (to_int best.material_type))
      ∷ (
        "weights",
        object (
            ("accuracy", num weights.target_accuracy_weight)
            ∷ ("power", num weights.power_weight)
            ∷ ("durability", num weights.durability_weight)
            ∷ []),
      )
      ∷ (
        "properties",
        object (
            ("young_modulus_gpa", num (best.young_modulus ⊘ lit 1_000_000_000 0))
            ∷ ("energy_efficiency", num best.energy_efficiency)
            ∷ ("damping_coefficient", num best.damping_coefficient)
            ∷ ("fatigue_life_cycles", num best.fatigue_life_cycles)
            ∷ []),
      )
      ∷ [])

module _ {W S : Type 0} ⦃d : Double W⦄ (lib : Library W) (ambient : Ambient W) where
  open d use {lit}

  unfoldable pub handle_get_bowstring_materials : Params → HttpServer W S → Reply W S
  unfolding increment_http_requests list_all material_json
  handle_get_bowstring_materials params s =
      let materials = list_all in
      some (
        lib.dump (
            object (
              ("materials", array (map material_json materials))
              ∷ ("count", nat (length materials))
              ∷ [])),
        increment_http_requests "/api/bowstring-materials" s,
      )

  unfoldable pub handle_compare_bowstring_materials : Params → HttpServer W S → Reply W S
  unfolding increment_http_requests compared_crossbow double_or create compare_all_materials
      comparison_json
  handle_compare_bowstring_materials params s = do
    cb ← compared_crossbow params s.crossbow_types
    angle ← double_or lib "launch_angle" (lit 15 0) params
    some (
      lib.dump (
          comparison_json angle
            (compare_all_materials ambient.now ambient.fresh (create cb) angle)),
      increment_http_requests "/api/bowstring-compare" s,
    )

  unfoldable pub handle_get_bowstring_efficiency_curve : Params → HttpServer W S → Reply W S
  unfolding increment_http_requests chosen_material curves_json
  handle_get_bowstring_efficiency_curve params s = do
    j ← curves_json (chosen_material params)
    some (lib.dump j, increment_http_requests "/api/bowstring-efficiency-curve" s)

  unfoldable pub handle_optimize_bowstring : Params → HttpServer W S → Reply W S
  unfolding increment_http_requests double_or create list_all optimize_material_for_accuracy
      optimum_json
  handle_optimize_bowstring params s = do
    acc_w ← double_or lib "accuracy_weight" (lit 6 1) params
    pw_w ← double_or lib "power_weight" (lit 25 2) params
    dur_w ← double_or lib "durability_weight" (lit 15 2) params
    let weights : Weights W = record {
      target_accuracy_weight = acc_w;
      power_weight = pw_w;
      durability_weight = dur_w;
    }
    some (
      lib.dump (
          optimum_json weights (
            optimize_material_for_accuracy ambient.lowest ambient.fresh
              (create get_default_crossbow) weights list_all)),
      increment_http_requests "/api/bowstring-optimize" s,
    )
