-- ===== src/FormationSimulator/Database.antt =====
-- The names in the database of formations.

use ai_solo_coder_task_b.Prelude.{◌≡◌, refl}
use ai_solo_coder_task_b.Double.{Double}
use ai_solo_coder_task_b.FormationSimulator.Designs.{
  FormationType, line_abreast, wedge, echelon_left, echelon_right, vee, archer_parabola, coiled_bow,
  crane_wing, square_grid, fish_scale, custom,
}
use ai_solo_coder_task_b.FormationSimulator.{get, get_by_name}

module _ {W : Type 0} (d : Double W) where
  -- A design is found again by its name, and the design that stands for a type that is not in the
  -- database, a custom formation's, by any name that is not there, its own among them.
  pub get_by_name-get :
      (t : FormationType)
      → ((get {W = W} ⦃d = d⦄ t).formation ≡ t)
        × (get_by_name ⦃d = d⦄ (get {W = W} ⦃d = d⦄ t).name ≡ get {W = W} ⦃d = d⦄ t)
  unfolding get get_by_name
  get_by_name-get line_abreast = (refl, refl)
  get_by_name-get wedge = (refl, refl)
  get_by_name-get echelon_left = (refl, refl)
  get_by_name-get echelon_right = (refl, refl)
  get_by_name-get vee = (refl, refl)
  get_by_name-get archer_parabola = (refl, refl)
  get_by_name-get coiled_bow = (refl, refl)
  get_by_name-get crane_wing = (refl, refl)
  get_by_name-get square_grid = (refl, refl)
  get_by_name-get fish_scale = (refl, refl)
  get_by_name-get custom = (refl, refl)
