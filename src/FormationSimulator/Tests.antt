-- ===== src/FormationSimulator/Tests.antt =====
-- Formations at concrete inputs.

use ai_solo_coder_task_b.Prelude.{ℕ, ◌≡◌, ◌≤◌, ◌*◌, refl, List, [], ◌∷◌, length, arith}
use ai_solo_coder_task_b.Prelude.Int.{ℤ, pos}
use ai_solo_coder_task_b.Double.Fixed.{fixed}
use ai_solo_coder_task_b.FormationSimulator.Designs.{FormationType, square_grid, coiled_bow}
use ai_solo_coder_task_b.FormationSimulator.{
  TargetType, TargetSpecification, FormationSimulator, get, get_by_name,
}
use ai_solo_coder_task_b.FormationSimulator.Posts.{add_crossbow}
use ai_solo_coder_task_b.FormationSimulator.Generate.{clamp_count, generate_formation, grid_side}
use ai_solo_coder_task_b.FormationSimulator.Counts.{Placed, generate_formation-Placed}

-- A wall 200 m away.
abbrev wall : TargetSpecification ℤ
wall = record {
  kind = TargetType.linear_defense;
  name = "wall";
  center_x_m = fixed.lit 0 0;
  center_y_m = fixed.lit 200 0;
  width_m = fixed.lit 30 0;
  depth_m = fixed.lit 3 0;
  radius_m = fixed.lit 5 0;
  priority_factor = fixed.lit 1 0;
  hardness_factor = fixed.lit 1 0;
  personnel_estimate = 40;
}

abbrev range : FormationSimulator ℤ
range = record { crossbow_types = []; current_target = wall }

abbrev nought : ℤ
nought = fixed.lit 0 0

abbrev one_m : ℤ
one_m = fixed.lit 1 0

-- Twenty crossbows in a square of five by five.
five : grid_side fixed 20 ≡ 5
unfolding grid_side
five = refl

twenty : clamp_count (get {W = ℤ} square_grid) (pos 20) ≡ 20
unfolding clamp_count get
twenty = refl

room :
    clamp_count (get {W = ℤ} square_grid) (pos 20)
    ≤ grid_side fixed (clamp_count (get {W = ℤ} square_grid) (pos 20))
      * grid_side fixed (clamp_count (get {W = ℤ} square_grid) (pos 20))
room = rw (twenty, five) (omega arith)

generate_formation-Placed_example :
    ((get {W = ℤ} square_grid).min_crossbows ≤ clamp_count (get {W = ℤ} square_grid) (pos 20))
    × (clamp_count (get {W = ℤ} square_grid) (pos 20) ≤ (get {W = ℤ} square_grid).max_crossbows)
    × Placed square_grid
        (clamp_count (get {W = ℤ} square_grid) (pos 20))
        (length (generate_formation range square_grid (pos 20) nought nought nought one_m))
generate_formation-Placed_example =
    generate_formation-Placed range square_grid (pos 20) nought nought nought one_m room

abbrev two_types : List ℕ
two_types = 1 ∷ 2 ∷ []

abbrev one_position : List (ℤ × ℤ)
one_position = (nought, one_m) ∷ []

abbrev two_facings : List ℤ
two_facings = nought ∷ nought ∷ []

-- The alias of a camp of coiled bows.
crescent_camp : (get_by_name {W = ℤ} "偃月营").formation ≡ coiled_bow
unfolding get_by_name
crescent_camp = refl

-- Nine crossbows in a wedge of rows of 1, 3 and 5.
nine : length (generate_formation range FormationType.wedge (pos 9) nought nought nought one_m) ≡ 9
unfolding generate_formation add_crossbow
nine = refl
