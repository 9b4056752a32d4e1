-- ===== src/StringComparator/Sensitivity.antt =====
-- How the metrics of backend/src/modules/string_comparator.cpp answer to a change of the configuration.
use Prim.Native.String.{String}
use text.Mathlib.Text.{◌==◌ as ◌=ₛ◌}
use ai_solo_coder_task_b.Prelude.{◌≡◌, refl, Option, none, some, List, [], ◌∷◌, if◌then◌else◌}
use ai_solo_coder_task_b.Double.{Double, ◌⊕◌, ◌⊖◌, ◌⊗◌, ◌⊘◌, max, clamp}
use ai_solo_coder_task_b.BowstringMaterial.Materials.{BowstringMaterial, BowstringMaterialType}
use ai_solo_coder_task_b.BowstringMaterial.{interpolate_efficiency}
use ai_solo_coder_task_b.BowstringMaterial.Database.{get}
use ai_solo_coder_task_b.StringComparator.{
  StringComparisonConfig, StringComparisonMetric, evaluate_material, estimate_velocity,
}

module _ {W : Type 0} ⦃d : Double W⦄ where
  open d use {lit, abs}

  -- How far a value moves when the configuration does, relative to the value.
  unfoldable pub relative_change :
      (StringComparisonMetric W → W)
      → BowstringMaterial W
      → StringComparisonConfig W
      → StringComparisonConfig W
      → W
  unfolding evaluate_material
  relative_change value material config varied =
      let base = value (evaluate_material config material) in
      abs (value (evaluate_material varied material) ⊖ base) ⊘ max base (lit 1 6)

  -- The map in the order of its keys.
  unfoldable pub get_parameter_sensitivity :
      StringComparisonConfig W → BowstringMaterialType → W → List (String × W)
  unfolding get relative_change
  get_parameter_sensitivity config t variation_pct =
      let material = get t in
      let more = lit 1 0 ⊕ clamp variation_pct (lit 1 2) (lit 5 1) in
      (
        "arrow_mass",
        relative_change (λ m. m.estimated_velocity_ms) material config
            (record config { arrow_mass_g = config.arrow_mass_g ⊗ more }),
      )
      ∷ (
        "draw_length",
        relative_change (λ m. m.stored_energy_J) material config
            (record config { draw_length_m = config.draw_length_m ⊗ more }),
      )
      ∷ (
        "draw_weight",
        relative_change (λ m. m.stored_energy_J) material config
            (record config { draw_weight_N = config.draw_weight_N ⊗ more }),
      )
      ∷ (
        "string_diameter",
        relative_change (λ m. m.estimated_velocity_ms) material config
            (record config { string_diameter_mm = config.string_diameter_mm ⊗ more }),
      )
      ∷ (
        "string_length",
        relative_change (λ m. m.energy_efficiency) material config
            (record config { string_length_m = config.string_length_m ⊗ more }),
      )
      ∷ []

  -- The value of a key in what is returned.
  abbrev pub of_key : String → List (String × W) → Option W
  of_key key [] = none
  of_key key ((k, v) ∷ rest) = if k =ₛ key then some v else of_key key rest

  -- A value that is set against itself.
  abbrev pub unmoved : W → W
  unmoved x = abs (x ⊖ x) ⊘ max x (lit 1 6)

  -- The two entries named after the string compare a value with itself, whatever the variation: the
  -- efficiency does not depend on the length, nor the velocity on the diameter.
  pub get_parameter_sensitivity-string :
      (config : StringComparisonConfig W) (t : BowstringMaterialType) (variation_pct : W)
      → (of_key "string_length" (get_parameter_sensitivity config t variation_pct)
          ≡ some (unmoved (interpolate_efficiency (get t) (lit 1 0))))
        × (of_key "string_diameter" (get_parameter_sensitivity config t variation_pct)
            ≡ some (unmoved (estimate_velocity config (get t))))
  unfolding get_parameter_sensitivity relative_change evaluate_material estimate_velocity
  get_parameter_sensitivity-string config t variation_pct = (refl, refl)
