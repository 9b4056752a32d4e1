-- ===== src/FormationSimulator/Posts.antt =====
-- The posts of `generate_formation` in backend/src/formation_simulator.cpp: where each formation puts its
-- crossbows. A `double` field that is set from an `int` is converted.
use Prim.Native.String.{String, ◌++◌ as append}
use ai_solo_coder_task_b.Prelude.{
  ℕ, ◌+◌, ◌*◌, ◌/◌, ◌%◌, true, List, [], ◌∷◌, ◌++◌, ◌==◌, if◌then◌else◌, length,
}
use ai_solo_coder_task_b.Prelude.Int.{ℤ, pos, ◌*ℤ◌, ◌-ℤ◌}
use ai_solo_coder_task_b.Prelude.Loop.{decimal}
use ai_solo_coder_task_b.Prelude.Map.{Map}
use ai_solo_coder_task_b.Double.{Double, ◌⊕◌, ◌⊖◌, ◌⊗◌, ◌⊘◌, pi, of_size}
use ai_solo_coder_task_b.Double
use ai_solo_coder_task_b.Sensor.{CrossbowType}
use ai_solo_coder_task_b.FormationSimulator.{CrossbowPlacement, FormationSimulator, rotate_point}

-- The arguments of a call and the lengths computed from them.
pub record Site (W : Type 0) : Type 0 where
  pub simulator : FormationSimulator W
  pub center_x : W
  pub center_y : W
  pub orientation : W
  pub spacing : W
  pub frontage : W
  pub space_x : W
  pub space_z : W

-- Where a crossbow stands before the formation is turned, its facing, its delay and its group.
pub record Post (W : Type 0) : Type 0 where
  pub x : W
  pub y : W
  pub face : W
  pub delay : W
  pub group : W

-- The first type of the map, if any, and its name; an empty map gives 1 and the empty name.
abbrev pub default_type : {W : Type 0} → Map (CrossbowType W) → ℕ × String
default_type [] = (1, "")
default_type ((id, crossbow) ∷ types) = (id, crossbow.name)

module _ {W : Type 0} ⦃d : Double W⦄ where
  open d use {lit, of_int, trunc, sqrt, cos, sin, atan2, ceil}

  unfoldable pub add_crossbow :
      Site W → Post W → List (CrossbowPlacement W) → List (CrossbowPlacement W)
  unfolding rotate_point decimal
  add_crossbow site post placements =
      let id = length placements in
      let (type_id, type_name) = default_type site.simulator.crossbow_types in
      let target = site.simulator.current_target in
      let at = rotate_point post.x post.y site.center_x site.center_y site.orientation in
      let dx = target.center_x_m ⊖ at.0 in
      let dy = target.center_y_m ⊖ at.1 in
      placements
      ++ (record {
        id = id;
        crossbow_type_id = type_id;
        name = append type_name (append "_" (decimal id));
        x_m = at.0;
        y_m = at.1;
        z_m = lit 0 0;
        facing_deg = post.face ⊕ site.orientation;
        elevation_deg = atan2 (lit 50 0) (sqrt (dx ⊗ dx ⊕ dy ⊗ dy)) ⊗ lit 180 0 ⊘ pi;
        firing_delay_ms = post.delay;
        salvo_group = post.group;
        is_active = true;
        crew_size = 2;
        supply_status = lit 1 0;
      }
          ∷ [])

  -- The direction of the target from a point, in degrees.
  abbrev to_target : Site W → W → W → W
  to_target site x y =
      let target = site.simulator.current_target in
      atan2 (target.center_y_m ⊖ y) (target.center_x_m ⊖ x) ⊗ lit 180 0 ⊘ pi

  -- A post that faces the target.
  abbrev aimed : Site W → W → W → W → ℕ → Post W
  aimed site x y delay group = record {
    x = x;
    y = y;
    face = to_target site x y;
    delay = delay;
    group = of_size group;
  }

  -- `(n - 1) / 2.0`.
  abbrev middle : ℕ → W
  middle n = of_int (pos n -ℤ pos 1) ⊘ lit 2 0

  unfoldable pub line_post : Site W → ℕ → ℕ → Post W
  line_post site n i =
      aimed site (site.center_x ⊕ (of_size i ⊖ middle n) ⊗ site.space_x) site.center_y
        (of_size (i % 3) ⊗ lit 100 0) (i % 3)

  unfoldable pub wedge_post : Site W → ℕ → ℕ → Post W
  wedge_post site row i =
      aimed site (site.center_x ⊕ (of_size i ⊖ of_size (1 + row * 2) ⊘ lit 2 0) ⊗ site.space_x)
        (site.center_y ⊖ of_size row ⊗ site.space_z) (of_size row ⊗ lit 200 0) (row % 4)

  -- `dir` is -1 or 1.
  unfoldable pub echelon_post : Site W → ℤ → ℕ → Post W
  echelon_post site dir i =
      aimed site (site.center_x ⊕ of_size i ⊗ site.space_x ⊗ lit 6 1)
        (site.center_y ⊕ of_int (dir *ℤ pos i) ⊗ site.space_z ⊗ lit 8 1)
        (of_size (i % 5) ⊗ lit 80 0) (i % 5)

  -- `sdir`, which is -1.0 on the side 0.
  abbrev side_sign : ℕ → W
  side_sign side = if side == 0 then d.neg (lit 1 0) else lit 1 0

  unfoldable pub vee_post : Site W → ℕ → ℕ → Post W
  vee_post site side i =
      aimed site (site.center_x ⊕ side_sign side ⊗ of_size i ⊗ site.space_x ⊗ lit 5 1)
        (site.center_y ⊕ of_size i ⊗ site.space_z ⊗ lit 8 1) (of_size i ⊗ lit 120 0)
        ((i + side * 3) % 6)

  unfoldable pub parabola_post : Site W → ℕ → ℕ → Post W
  parabola_post site n i =
      let t = (of_size i ⊖ middle n) ⊘ Double.max (lit 1 0) (middle n) in
      aimed site (site.center_x ⊕ t ⊗ of_size n ⊗ site.space_x ⊗ lit 4 1)
        (site.center_y ⊕ t ⊗ t ⊗ of_size n ⊗ site.space_z ⊗ lit 3 1) (of_size (i % 4) ⊗ lit 150 0)
        (i % 4)

  abbrev pub radius : Site W → ℕ → W
  radius site r = of_size (r + 1) ⊗ site.frontage ⊗ site.spacing ⊗ lit 8 1

  unfoldable pub coiled_post : Site W → ℕ → ℕ → ℕ → Post W
  coiled_post site r in_ring j =
      let theta = lit 2 0 ⊗ pi ⊗ of_size j ⊘ of_size in_ring in
      let x = site.center_x ⊕ radius site r ⊗ cos theta in
      let y = site.center_y ⊕ radius site r ⊗ sin theta in
      let outward = theta ⊗ lit 180 0 ⊘ pi ⊕ lit 180 0 in
      record {
        x = x;
        y = y;
        face = if r == 0 then to_target site x y else outward;
        delay = of_size j ⊗ lit 50 0 ⊕ of_size r ⊗ lit 300 0;
        group = of_size ((r + j) % 8);
      }

  unfoldable pub crane_center_post : Site W → ℕ → ℕ → Post W
  crane_center_post site n i =
      aimed site (site.center_x ⊕ (of_size i ⊖ middle n) ⊗ site.space_x ⊗ lit 9 1) site.center_y
        (lit 0 0) 0

  unfoldable pub crane_wing_post : Site W → ℕ → ℕ → ℕ → Post W
  crane_wing_post site n wing i =
      aimed site
        (site.center_x
          ⊕ side_sign wing
            ⊗ (middle n ⊗ site.space_x ⊗ lit 9 1 ⊕ of_size i ⊗ site.space_x ⊗ lit 7 1))
        (site.center_y ⊕ of_size i ⊗ site.space_z ⊗ lit 12 1) (of_size i ⊗ lit 100 0) (wing + 1)

  unfoldable pub grid_post : Site W → ℕ → ℕ → ℕ → Post W
  grid_post site side i j =
      let group = (i + j) % 4 in
      aimed site (site.center_x ⊕ (of_size j ⊖ middle side) ⊗ site.space_x)
        (site.center_y ⊕ (of_size i ⊖ middle side) ⊗ site.space_z) (of_size group ⊗ lit 200 0) group

  unfoldable pub fish_post : Site W → ℕ → ℕ → ℕ → Post W
  fish_post site in_row r c =
      let offset = if r % 2 == 0 then lit 0 0 else site.space_x ⊗ lit 5 1 in
      aimed site (site.center_x ⊕ (of_size c ⊖ middle in_row) ⊗ site.space_x ⊕ offset)
        (site.center_y ⊕ of_size r ⊗ site.space_z) (of_size r ⊗ lit 150 0) r

  -- `i % 5 - 2` can be negative.
  unfoldable pub other_post : Site W → ℕ → Post W
  other_post site i = record {
    x = site.center_x ⊕ of_int (pos (i % 5) -ℤ pos 2) ⊗ site.space_x;
    y = site.center_y ⊕ of_size (i / 5) ⊗ site.space_z;
    face = lit 0 0;
    delay = of_size i ⊗ lit 50 0;
    group = of_size (i % 4);
  }
