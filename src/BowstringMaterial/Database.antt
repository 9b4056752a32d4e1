-- ===== src/BowstringMaterial/Database.antt =====
-- The class BowstringMaterialDatabase of backend/src/bowstring_material.cpp.
use Prim.Native.String.{String, ◌++◌ as append}
use ai_solo_coder_task_b.Prelude.{
  ℕ, zero, suc, ◌+◌, ◌-◌, Option, none, some, List, [], ◌∷◌, if◌then◌else◌,
}
use ai_solo_coder_task_b.Prelude.Loop.{decimal}
use ai_solo_coder_task_b.Prelude.Map.{Map, find, insert}
use ai_solo_coder_task_b.Prelude.Bytes.{Bytes, utf8, ◌=ᵇ◌}
use ai_solo_coder_task_b.Double.{Double, ◌⊕◌, ◌⊖◌, ◌⊗◌, ◌⊘◌, of_size}
use ai_solo_coder_task_b.BowstringMaterial.Materials.{
  BowstringMaterial, BowstringMaterialType, MaterialDataPoint, to_int, unknown, sinew, horn, silk,
  hemp, sinew_base, horn_base, silk_base, hemp_base, unknown_material,
}
use ai_solo_coder_task_b.BowstringMaterial.{add_experimental_point}

module _ {W : Type 0} ⦃d : Double W⦄ where
  open d use {lit, neg, exp, pow}

  -- The point for `i` of `num_points`.
  unfoldable pub data_point : BowstringMaterial W → ℕ → ℕ → MaterialDataPoint W
  unfolding decimal
  data_point mat num_points i =
      let base_eff = mat.energy_efficiency in
      let r = of_size i ⊘ of_size (num_points - 1) in
      let strain = r ⊗ mat.elongation_at_break in
      let gauss = exp (neg (pow ((r ⊖ lit 7 1) ⊘ lit 45 2) (lit 2 0))) in
      let min_eff = base_eff ⊗ lit 72 2 in
      let eff_var = base_eff ⊖ min_eff in
      record {
        pull_ratio = r;
        stress_pa = mat.young_modulus ⊗ strain ⊗ (lit 1 0 ⊖ lit 15 2 ⊗ r ⊗ r);
        strain = strain;
        efficiency = min_eff ⊕ eff_var ⊗ (lit 25 2 ⊕ lit 75 2 ⊗ gauss);
        damping_factor = mat.damping_coefficient ⊗ (lit 1 0 ⊕ lit 3 1 ⊗ r);
        temperature_c = lit 20 0;
        humidity = lit 5 1;
        sample_id = append mat.name (append "_sample_" (decimal i));
      }

  -- The rounds from `i` on, `left` of them.
  unfoldable pub add_points : ℕ → ℕ → ℕ → BowstringMaterial W → BowstringMaterial W
  unfolding data_point add_experimental_point
  add_points num_points i zero mat = mat
  add_points num_points i (suc left) mat =
      add_points num_points (i + 1) left (add_experimental_point (data_point mat num_points i) mat)

  unfoldable pub add_experimental_dataset : BowstringMaterial W → ℕ → BowstringMaterial W
  unfolding add_points
  add_experimental_dataset mat num_points = add_points num_points 0 num_points mat

  abbrev put_all :
      List (BowstringMaterialType × BowstringMaterial W)
      → Map (BowstringMaterial W)
      → Map (BowstringMaterial W)
  put_all [] m = m
  put_all ((t, mat) ∷ mats) m = put_all mats (insert (to_int t) mat m)

  -- `materials_` after `initialize_defaults`; the hemp has no data.
  unfoldable pub materials : Map (BowstringMaterial W)
  unfolding insert add_experimental_dataset
  materials =
      put_all
        ((sinew, add_experimental_dataset sinew_base 15)
          ∷ (horn, add_experimental_dataset horn_base 13)
          ∷ (silk, add_experimental_dataset silk_base 17)
          ∷ (hemp, hemp_base)
          ∷ [])
        []

  unfoldable pub get : BowstringMaterialType → BowstringMaterial W
  unfolding find materials
  get t = elim (find (to_int t) materials) [ none ↦ unknown_material | some mat ↦ mat ]

-- `name_to_type_`.
abbrev pub name_to_type : List (String × BowstringMaterialType)
name_to_type =
    ("animal_sinew", sinew)
    ∷ ("筋", sinew)
    ∷ ("sinew", sinew)
    ∷ ("animal_horn_sinew", horn)
    ∷ ("角", horn)
    ∷ ("horn", horn)
    ∷ ("silk_thread", silk)
    ∷ ("丝", silk)
    ∷ ("silk", silk)
    ∷ ("hemp_fiber", hemp)
    ∷ ("麻", hemp)
    ∷ ("hemp", hemp)
    ∷ []

unfoldable pub type_of_name :
    Bytes → List (String × BowstringMaterialType) → Option BowstringMaterialType
type_of_name name [] = none
type_of_name name ((key, t) ∷ rest) = if utf8 key =ᵇ name then some t else type_of_name name rest

abbrev values : {V : Type 0} → Map V → List V
values [] = []
values ((k, v) ∷ m) = v ∷ values m

module _ {W : Type 0} ⦃d : Double W⦄ where
  unfoldable pub get_by_name : Bytes → BowstringMaterial W
  unfolding type_of_name get
  get_by_name name = elim (type_of_name name name_to_type) [ none ↦ get unknown | some t ↦ get t ]

  unfoldable pub list_all : List (BowstringMaterial W)
  unfolding materials
  list_all = values materials
