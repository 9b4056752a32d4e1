-- ===== src/FormationSimulator/Numbers.antt =====
-- The identifiers in a formation are the positions in its list.
use ai_solo_coder_task_b.Prelude.{
  ℕ, suc, ◌+◌, ◌-◌, ◌*◌, ◌/◌, min, ◌≡◌, refl, List, [], ◌∷◌, ◌++◌, arith, length,
}
use ai_solo_coder_task_b.Prelude.Int.{ℤ, pos, negsuc}
use ai_solo_coder_task_b.Prelude.Loop.{for_range, for_while, for_range-keeps, for_while-keeps}
use ai_solo_coder_task_b.Double.{Double}
use ai_solo_coder_task_b.FormationSimulator.Designs.{
  FormationType, line_abreast, wedge, echelon_left, echelon_right, vee, archer_parabola, coiled_bow,
  crane_wing, square_grid, fish_scale, custom,
}
use ai_solo_coder_task_b.FormationSimulator.{
  CrossbowPlacement, FormationSimulator, custom_placement, custom_from, generate_custom_formation,
}
use ai_solo_coder_task_b.FormationSimulator.Posts.{
  Site, Post, add_crossbow, line_post, echelon_post, parabola_post, other_post, crane_center_post,
  crane_wing_post, fish_post, vee_post, wedge_post, coiled_post, grid_post,
}
use ai_solo_coder_task_b.FormationSimulator.Generate.{
  below, add_post, add_row, place_wedge, place_vee, place_coiled, place_crane, place_grid,
  place_fish, place, generate_formation, ring_size, ring_count, grid_side, fish_rows,
}

-- The identifiers count up from `i`.
abbrev pub IsNumbered : {W : Type 0} → ℕ → List (CrossbowPlacement W) → Type 0
IsNumbered i [] = Unit
IsNumbered i (p ∷ ps) = (p.id ≡ i) × IsNumbered (suc i) ps

module _ {W : Type 0} where
  append-IsNumbered :
      (i : ℕ) (ps : List (CrossbowPlacement W)) (q : CrossbowPlacement W)
      → q.id ≡ i + length ps
      → IsNumbered i ps
      → IsNumbered i (ps ++ (q ∷ []))
  append-IsNumbered i [] q e h = (omega arith, tt)
  append-IsNumbered i (p ∷ ps) q e h = (h.0, append-IsNumbered (suc i) ps q (omega arith) h.1)

module _ {W : Type 0} ⦃d : Double W⦄ (site : Site W) where
  add_crossbow-IsNumbered :
      (post : Post W) (ps : List (CrossbowPlacement W))
      → IsNumbered 0 ps
      → IsNumbered 0 (add_crossbow site post ps)
  unfolding add_crossbow
  add_crossbow-IsNumbered post ps h = append-IsNumbered 0 ps _ (omega arith) h

  add_posts-IsNumbered :
      (post : ℕ → Post W) (n i : ℕ) (ps : List (CrossbowPlacement W))
      → IsNumbered 0 ps
      → IsNumbered 0 (for_range (add_post site post) n i ps)
  add_posts-IsNumbered post n i ps h =
      for_range-keeps (IsNumbered 0) (add_post site post)
        (λ k s h'. add_crossbow-IsNumbered (post k) s h') n i ps h

  add_some-IsNumbered :
      (n : ℕ) (post : ℕ → Post W) (count i : ℕ) (ps : List (CrossbowPlacement W))
      → IsNumbered 0 ps
      → IsNumbered 0 (for_while (below n) (add_post site post) count i ps)
  add_some-IsNumbered n post count i ps h =
      for_while-keeps (IsNumbered 0) (below n) (add_post site post)
        (λ k s h'. add_crossbow-IsNumbered (post k) s h') count i ps h

  -- Loops over rows.
  rows-IsNumbered :
      (n : ℕ) (post : ℕ → ℕ → Post W) (count : ℕ → ℕ) (k : ℕ)
      → IsNumbered 0
          (for_while (below n) (λ r placed. add_row site n (post r) (count r) placed) k 0 [])
  rows-IsNumbered n post count k =
      for_while-keeps (IsNumbered 0) (below n)
        (λ r placed. add_row site n (post r) (count r) placed)
        (λ r ps h. add_some-IsNumbered n (post r) (count r) 0 ps h) k 0 [] tt

  place-IsNumbered : (t : FormationType) (n : ℕ) → IsNumbered 0 (place t site n)
  unfolding place place_wedge place_vee place_coiled place_crane place_grid place_fish
  place-IsNumbered line_abreast n = add_posts-IsNumbered (line_post site n) n 0 [] tt
  place-IsNumbered wedge n = rows-IsNumbered n (wedge_post site) (λ row. 1 + row * 2) n
  place-IsNumbered echelon_left n = add_posts-IsNumbered (echelon_post site (negsuc 0)) n 0 [] tt
  place-IsNumbered echelon_right n = add_posts-IsNumbered (echelon_post site (pos 1)) n 0 [] tt
  place-IsNumbered vee n =
      for_range-keeps (IsNumbered 0)
        (λ side placed.
          for_while (below n) (add_post site (vee_post site side)) ((n + 1) / 2) 1 placed)
        (λ side ps h. add_some-IsNumbered n (vee_post site side) ((n + 1) / 2) 1 ps h) 2 0 [] tt
  place-IsNumbered archer_parabola n = add_posts-IsNumbered (parabola_post site n) n 0 [] tt
  place-IsNumbered coiled_bow n =
      rows-IsNumbered n (λ r. coiled_post site r (ring_size site r)) (ring_size site)
        (ring_count d n)
  place-IsNumbered crane_wing n =
      let wing_each = n / 3 in
      let c = n - 2 * wing_each in
      for_range-keeps (IsNumbered 0)
        (λ wing placed. for_range (add_post site (crane_wing_post site c wing)) wing_each 1 placed)
        (λ wing ps h. add_posts-IsNumbered (crane_wing_post site c wing) wing_each 1 ps h) 2 0 _
        (add_posts-IsNumbered (crane_center_post site c) c 0 [] tt)
  place-IsNumbered square_grid n =
      rows-IsNumbered n (grid_post site (grid_side d n)) (λ i. grid_side d n) (grid_side d n)
  place-IsNumbered fish_scale n =
      let rows = fish_rows d n in
      let cols = (n + rows - 1) / rows in
      for_range-keeps (IsNumbered 0)
        (λ r placed.
          for_range (add_post site (fish_post site (min cols (n - r * cols)) r))
            (min cols (n - r * cols)) 0 placed)
        (λ r ps h.
          add_posts-IsNumbered (fish_post site (min cols (n - r * cols)) r)
            (min cols (n - r * cols)) 0 ps h)
        rows 0 [] tt
  place-IsNumbered custom n = add_posts-IsNumbered (other_post site) n 0 [] tt

module _ {W : Type 0} ⦃d : Double W⦄ where
  custom_from-IsNumbered :
      (s : FormationSimulator W) (i : ℕ) (types : List ℕ) (positions : List (W × W))
      (facings : List W)
      → IsNumbered i (custom_from s i types positions facings)
        × (length (custom_from s i types positions facings)
            ≡ min (length types) (min (length positions) (length facings)))
  unfolding custom_from custom_placement
  custom_from-IsNumbered s i [] positions facings = (tt, omega arith)
  custom_from-IsNumbered s i (t ∷ types) [] facings = (tt, omega arith)
  custom_from-IsNumbered s i (t ∷ types) (p ∷ positions) [] = (tt, omega arith)
  custom_from-IsNumbered s i (t ∷ types) (p ∷ positions) (f ∷ facings) =
      let (numbered, size) = custom_from-IsNumbered s (suc i) types positions facings in
      ((refl, numbered), omega arith)

  -- In each formation the crossbows have the identifiers 0, 1, 2 and so on, in the order of the list. A
  -- formation that is made from lists does too, and has as many crossbows as the shortest of them.
  pub generate_formation-IsNumbered :
      (s : FormationSimulator W) (t : FormationType) (num : ℤ)
      (center_x center_y orientation spacing : W) (types : List ℕ) (positions : List (W × W))
      (facings : List W)
      → IsNumbered 0 (generate_formation s t num center_x center_y orientation spacing)
        × IsNumbered 0 (generate_custom_formation s types positions facings)
        × (length (generate_custom_formation s types positions facings)
            ≡ min (length types) (min (length positions) (length facings)))
  unfolding generate_formation generate_custom_formation
  generate_formation-IsNumbered s t num center_x center_y orientation spacing types positions
        facings =
      let (numbered, size) = custom_from-IsNumbered s 0 types positions facings in
      (place-IsNumbered _ t _, numbered, size)
