-- ===== src/FormationSimulator.antt =====
-- backend/src/formation_simulator.cpp and its header: the database of formations, the geometry of placements
-- and targets, and the salvo timing. A key of a `std::map<int, …>` is not negative.
pub mod Designs
pub mod Posts
pub mod Generate
pub mod Database
pub mod Chances
pub mod Counts
pub mod Numbers
mod Tests
use Prim.Native.String.{String, ◌++◌ as append}
use text.Mathlib.Text.{◌==◌ as ◌=ₛ◌}
use ai_solo_coder_task_b.Prelude.{
  ℕ, suc, ◌+◌, ◌-◌, ◌*◌, ◌/◌, ◌%◌, min, max, Bool, true, false, ◌&&◌, Option, none, some, List, [],
  ◌∷◌, ◌++◌, if◌then◌else◌, length,
}
use ai_solo_coder_task_b.Prelude.Int.{pos}
use ai_solo_coder_task_b.Prelude.Loop.{decimal}
use ai_solo_coder_task_b.Prelude.Map.{Map, find, insert}
use ai_solo_coder_task_b.Double.{Double, ◌⊕◌, ◌⊖◌, ◌⊗◌, ◌⊘◌, gt, pi, of_size, clamp}
use ai_solo_coder_task_b.Double
use ai_solo_coder_task_b.Sensor.{CrossbowType}
use ai_solo_coder_task_b.FormationSimulator.Designs.{
  FormationType, custom, to_int, FormationDesign, all_designs, name_to_type,
}

pub data TargetType : Type 0 where
  single_point : TargetType
  area_rectangle : TargetType
  area_circle : TargetType
  linear_defense : TargetType
  convoy_path : TargetType
  fortification : TargetType

pub record CrossbowPlacement (W : Type 0) : Type 0 where
  pub id : ℕ
  pub crossbow_type_id : ℕ
  pub name : String
  pub x_m : W
  pub y_m : W
  pub z_m : W
  pub facing_deg : W
  pub elevation_deg : W
  pub firing_delay_ms : W
  pub salvo_group : W
  pub is_active : Bool
  pub crew_size : ℕ
  pub supply_status : W

pub record TargetSpecification (W : Type 0) : Type 0 where
  pub kind : TargetType
  pub name : String
  pub center_x_m : W
  pub center_y_m : W
  pub width_m : W
  pub depth_m : W
  pub radius_m : W
  pub priority_factor : W
  pub hardness_factor : W
  pub personnel_estimate : ℕ

-- The members but the random generator.
pub record FormationSimulator (W : Type 0) : Type 0 where
  pub crossbow_types : Map (CrossbowType W)
  pub current_target : TargetSpecification W

module _ {W : Type 0} where
  unfoldable pub set_crossbow_types :
      Map (CrossbowType W) → FormationSimulator W → FormationSimulator W
  set_crossbow_types types s = record s { crossbow_types = types }

  unfoldable pub set_target : TargetSpecification W → FormationSimulator W → FormationSimulator W
  set_target target s = record s { current_target = target }

abbrev values : {V : Type 0} → Map V → List V
values [] = []
values ((k, v) ∷ m) = v ∷ values m

-- `name_to_type_.find(name)`.
unfoldable pub type_of_name : String → List (String × FormationType) → Option FormationType
type_of_name name [] = none
type_of_name name ((key, t) ∷ rest) = if key =ₛ name then some t else type_of_name name rest

module _ {W : Type 0} ⦃d : Double W⦄ where
  open d use {lit, neg, lt, sqrt, cos, sin, atan2, abs}

  abbrev put_all : List (FormationDesign W) → Map (FormationDesign W) → Map (FormationDesign W)
  put_all [] m = m
  put_all (design ∷ designs) m = put_all designs (insert (to_int design.formation) design m)

  -- `formations_` after `initialize_defaults`.
  unfoldable pub formations : Map (FormationDesign W)
  unfolding insert
  formations = put_all all_designs []

  -- The value-initialised design of a type that is not in the map.
  abbrev pub unknown : FormationDesign W
  unknown = record {
    formation = custom;
    name = "custom";
    description = "";
    historical_origin = "";
    min_crossbows = 0;
    optimal_crossbows = 0;
    max_crossbows = 0;
    frontage_per_unit_m = lit 0 0;
    depth_per_unit_m = lit 0 0;
    minimum_safety_spacing_m = lit 0 0;
    best_suited_range_m = lit 0 0;
    defensive_utility = lit 0 0;
    offensive_utility = lit 0 0;
    siege_utility = lit 0 0;
    mobility_score = lit 0 0;
    command_and_control_score = lit 0 0;
  }

  -- The two functions `get`.
  unfoldable pub get : FormationType → FormationDesign W
  unfolding find formations
  get t = elim (find (to_int t) formations) [ none ↦ unknown | some design ↦ design ]

  unfoldable pub get_by_name : String → FormationDesign W
  unfolding type_of_name get
  get_by_name name = elim (type_of_name name name_to_type) [ none ↦ get custom | some t ↦ get t ]

  unfoldable pub list_all : List (FormationDesign W)
  unfolding formations
  list_all = values formations

  unfoldable pub rotate_point : W → W → W → W → W → W × W
  rotate_point x y cx cy angle_deg =
      let rad = angle_deg ⊗ pi ⊘ lit 180 0 in
      let dx = x ⊖ cx in
      let dy = y ⊖ cy in (cx ⊕ dx ⊗ cos rad ⊖ dy ⊗ sin rad, cy ⊕ dx ⊗ sin rad ⊕ dy ⊗ cos rad)

  unfoldable pub distance_to_target : CrossbowPlacement W → TargetSpecification W → W
  distance_to_target placement target =
      let dx = placement.x_m ⊖ target.center_x_m in
      let dy = placement.y_m ⊖ target.center_y_m in sqrt (dx ⊗ dx ⊕ dy ⊗ dy)

  unfoldable pub calculate_target_area : TargetSpecification W → W
  calculate_target_area target = elim target.kind [
    | TargetType.single_point ↦ lit 1 0
    | TargetType.area_rectangle ↦ target.width_m ⊗ target.depth_m
    | TargetType.area_circle ↦ pi ⊗ target.radius_m ⊗ target.radius_m
    | TargetType.linear_defense ↦ target.width_m ⊗ lit 3 0
    | TargetType.convoy_path ↦ target.width_m ⊗ target.depth_m ⊗ lit 5 1
    | TargetType.fortification ↦ target.width_m ⊗ target.depth_m ⊗ lit 12 1
  ]

  unfoldable pub is_point_in_target : W → W → TargetSpecification W → Bool
  is_point_in_target x y target =
      let dx = x ⊖ target.center_x_m in
      let dy = y ⊖ target.center_y_m in
      let t = clamp (dx ⊘ Double.max (lit 1 1) target.width_m) (lit 0 0) (lit 1 0) in
      elim target.kind [
        | TargetType.single_point ↦ lt (sqrt (dx ⊗ dx ⊕ dy ⊗ dy)) (lit 2 0)
        | TargetType.area_rectangle ↦
            lt (abs dx) (target.width_m ⊘ lit 2 0) && lt (abs dy) (target.depth_m ⊘ lit 2 0)
        | TargetType.area_circle ↦ lt (dx ⊗ dx ⊕ dy ⊗ dy) (target.radius_m ⊗ target.radius_m)
        | TargetType.linear_defense ↦
            lt (abs dx) (target.width_m ⊘ lit 2 0) && lt (abs dy) (lit 15 1)
        | TargetType.convoy_path ↦ lt (abs (neg dy ⊕ t ⊗ target.depth_m)) target.radius_m
        | TargetType.fortification ↦
            lt (abs dx) (target.width_m ⊘ lit 2 0 ⊗ lit 11 1)
            && lt (abs dy) (target.depth_m ⊘ lit 2 0 ⊗ lit 11 1)
      ]

  -- What `generate_custom_formation` makes of the elements at one index.
  unfoldable pub custom_placement : FormationSimulator W → ℕ → ℕ → W × W → W → CrossbowPlacement W
  unfolding decimal find
  custom_placement s i type_id position facing =
      let dx = s.current_target.center_x_m ⊖ position.0 in
      let dy = s.current_target.center_y_m ⊖ position.1 in
      record {
        id = i;
        crossbow_type_id = type_id;
        name = elim (find type_id s.crossbow_types) [
          | none ↦ append "crossbow_" (decimal i)
          | some crossbow ↦ crossbow.name
        ];
        x_m = position.0;
        y_m = position.1;
        z_m = lit 0 0;
        facing_deg = facing;
        elevation_deg = atan2 (lit 30 0) (sqrt (dx ⊗ dx ⊕ dy ⊗ dy)) ⊗ lit 180 0 ⊘ pi;
        firing_delay_ms = of_size (i % 4) ⊗ lit 120 0;
        salvo_group = of_size (i % 4);
        is_active = true;
        crew_size = 2;
        supply_status = lit 1 0;
      }

  -- The loop from index `i`; it ends with the shortest of the lists.
  unfoldable pub custom_from :
      FormationSimulator W → ℕ → List ℕ → List (W × W) → List W → List (CrossbowPlacement W)
  custom_from s i [] positions facings = []
  custom_from s i (t ∷ types) [] facings = []
  custom_from s i (t ∷ types) (p ∷ positions) [] = []
  custom_from s i (t ∷ types) (p ∷ positions) (f ∷ facings) =
      custom_placement s i t p f ∷ custom_from s (suc i) types positions facings

  unfoldable pub generate_custom_formation :
      FormationSimulator W → List ℕ → List (W × W) → List W → List (CrossbowPlacement W)
  unfolding custom_from
  generate_custom_formation s types positions facings = custom_from s 0 types positions facings
