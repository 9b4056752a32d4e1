-- ===== src/FormationSimulator/Generate.antt =====
-- `generate_formation` of backend/src/formation_simulator.cpp: the loops over the posts of each formation.
use ai_solo_coder_task_b.Prelude.{ℕ, ◌+◌, ◌-◌, ◌*◌, ◌/◌, min, max, Bool, List, [], ltb, length}
use ai_solo_coder_task_b.Prelude.Int.{ℤ, pos, negsuc, pos_part}
use ai_solo_coder_task_b.Prelude.Loop.{for_range, for_while}
use ai_solo_coder_task_b.Double.{Double, ◌⊗◌, ◌⊘◌, pi}
use ai_solo_coder_task_b.FormationSimulator.Designs.{
  FormationType, line_abreast, wedge, echelon_left, echelon_right, vee, archer_parabola, coiled_bow,
  crane_wing, square_grid, fish_scale, custom, FormationDesign,
}
use ai_solo_coder_task_b.FormationSimulator.{CrossbowPlacement, FormationSimulator, get}
use ai_solo_coder_task_b.FormationSimulator.Posts.{
  Site, Post, add_crossbow, line_post, wedge_post, echelon_post, vee_post, parabola_post, radius,
  coiled_post, crane_center_post, crane_wing_post, grid_post, fish_post, other_post,
}

-- The number that is asked for, within the bounds of the design; they are not negative.
unfoldable pub clamp_count : {W : Type 0} → FormationDesign W → ℤ → ℕ
clamp_count design num = max design.min_crossbows (min (pos_part num) design.max_crossbows)

-- The numbers of rings, of columns of the square, and of rows of the scales.
module _ {W : Type 0} (d : Double W) where
  open d use {lit, trunc, sqrt, ceil}

  unfoldable pub ring_count : ℕ → ℕ
  ring_count n = max 2 (pos_part (trunc (ceil (sqrt (d.div (d.of_int (pos n)) (pi ⦃d = d⦄))))))

  unfoldable pub grid_side : ℕ → ℕ
  grid_side n = pos_part (trunc (ceil (sqrt (d.of_int (pos n)))))

  unfoldable pub fish_rows : ℕ → ℕ
  fish_rows n = max 3 (pos_part (trunc (ceil (sqrt (d.mul (d.of_int (pos n)) (lit 6 1))))))

module _ {W : Type 0} ⦃d : Double W⦄ where
  open d use {lit, trunc}

  -- `placements.size() < num_crossbows`, which is `placed < num_crossbows` too.
  abbrev pub below : ℕ → List (CrossbowPlacement W) → Bool
  below n placements = ltb (length placements) n

  -- The body of a loop that adds the post of its index.
  abbrev pub add_post :
      Site W → (ℕ → Post W) → ℕ → List (CrossbowPlacement W) → List (CrossbowPlacement W)
  add_post site post i placements = add_crossbow site (post i) placements

  -- The inner loop of a formation by rows: `count` posts, or until `n` crossbows stand.
  abbrev pub add_row :
      Site W → ℕ → (ℕ → Post W) → ℕ → List (CrossbowPlacement W) → List (CrossbowPlacement W)
  add_row site n post count placements = for_while (below n) (add_post site post) count 0 placements

  -- The `while` over the rows ends within `n` rounds, as each adds a crossbow.
  unfoldable pub place_wedge : Site W → ℕ → List (CrossbowPlacement W)
  unfolding for_while
  place_wedge site n =
      for_while (below n) (λ row placed. add_row site n (wedge_post site row) (1 + row * 2) placed)
        n 0 []

  unfoldable pub place_vee : Site W → ℕ → List (CrossbowPlacement W)
  unfolding for_range for_while
  place_vee site n =
      for_range
        (λ side placed.
          for_while (below n) (add_post site (vee_post site side)) ((n + 1) / 2) 1 placed)
        2 0 []

  unfoldable pub ring_size : Site W → ℕ → ℕ
  ring_size site r = max 6 (pos_part (trunc (lit 2 0 ⊗ pi ⊗ radius site r ⊘ site.space_x)))

  unfoldable pub place_coiled : Site W → ℕ → List (CrossbowPlacement W)
  unfolding for_while ring_size ring_count
  place_coiled site n =
      for_while (below n)
        (λ r placed.
          add_row site n (coiled_post site r (ring_size site r)) (ring_size site r) placed)
        (ring_count d n) 0 []

  unfoldable pub place_crane : Site W → ℕ → List (CrossbowPlacement W)
  unfolding for_range
  place_crane site n =
      let wing_each = n / 3 in
      let center_count = n - 2 * wing_each in
      for_range
        (λ wing placed.
          for_range (add_post site (crane_wing_post site center_count wing)) wing_each 1 placed)
        2 0 (for_range (add_post site (crane_center_post site center_count)) center_count 0 [])

  unfoldable pub place_grid : Site W → ℕ → List (CrossbowPlacement W)
  unfolding for_while grid_side
  place_grid site n =
      for_while (below n)
        (λ i placed. add_row site n (grid_post site (grid_side d n) i) (grid_side d n) placed)
        (grid_side d n) 0 []

  -- A row whose number would be negative has no crossbows.
  unfoldable pub place_fish : Site W → ℕ → List (CrossbowPlacement W)
  unfolding for_range fish_rows
  place_fish site n =
      let rows = fish_rows d n in
      let cols = (n + rows - 1) / rows in
      for_range
        (λ r placed.
          let in_row = min cols (n - r * cols) in
          for_range (add_post site (fish_post site in_row r)) in_row 0 placed)
        rows 0 []

  -- The `switch`.
  unfoldable pub place : FormationType → Site W → ℕ → List (CrossbowPlacement W)
  unfolding for_range place_wedge place_vee place_coiled place_crane place_grid place_fish
  place line_abreast site n = for_range (add_post site (line_post site n)) n 0 []
  place wedge site n = place_wedge site n
  place echelon_left site n = for_range (add_post site (echelon_post site (negsuc 0))) n 0 []
  place echelon_right site n = for_range (add_post site (echelon_post site (pos 1))) n 0 []
  place vee site n = place_vee site n
  place archer_parabola site n = for_range (add_post site (parabola_post site n)) n 0 []
  place coiled_bow site n = place_coiled site n
  place crane_wing site n = place_crane site n
  place square_grid site n = place_grid site n
  place fish_scale site n = place_fish site n
  place custom site n = for_range (add_post site (other_post site)) n 0 []

  unfoldable pub generate_formation :
      FormationSimulator W → FormationType → ℤ → W → W → W → W → List (CrossbowPlacement W)
  unfolding get place clamp_count
  generate_formation s t num center_x center_y orientation spacing =
      let design : FormationDesign W = get t in
      let site : Site W = record {
        simulator = s;
        center_x = center_x;
        center_y = center_y;
        orientation = orientation;
        spacing = spacing;
        frontage = design.frontage_per_unit_m;
        space_x = design.frontage_per_unit_m ⊗ spacing;
        space_z = design.depth_per_unit_m ⊗ spacing;
      } in
      place t site (clamp_count design num)
