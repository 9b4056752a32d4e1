-- ===== src/FormationSimulator/Counts.antt =====
-- How many crossbows a formation has.
use ai_solo_coder_task_b.Prelude.{
  ℕ, suc, ◌+◌, ◌-◌, ◌*◌, ◌/◌, min, ◌≤◌, ◌<◌, ◌≡◌, refl, List, [], ◌∷◌, arith, length, length-append,
}
use ai_solo_coder_task_b.Prelude.Int.{ℤ, pos, negsuc}
use ai_solo_coder_task_b.Prelude.Loop.{for_range, for_while, length-for_range, length-for_while}
use ai_solo_coder_task_b.Prelude.Loop.Fill.{for_while-fills, for_range-fills, rounded_up}
use ai_solo_coder_task_b.Double.{Double}
use ai_solo_coder_task_b.FormationSimulator.Designs.{
  FormationType, line_abreast, wedge, echelon_left, echelon_right, vee, archer_parabola, coiled_bow,
  crane_wing, square_grid, fish_scale, custom,
}
use ai_solo_coder_task_b.FormationSimulator.{CrossbowPlacement, FormationSimulator, get}
use ai_solo_coder_task_b.FormationSimulator.Posts.{
  Site, line_post, echelon_post, parabola_post, other_post, Post, add_crossbow, crane_center_post,
  crane_wing_post, fish_post, vee_post, wedge_post, coiled_post, grid_post,
}
use ai_solo_coder_task_b.FormationSimulator.Generate.{
  below, add_post, add_row, place_wedge, place_vee, place_coiled, place_crane, place_grid,
  place_fish, place, clamp_count, generate_formation, grid_side, fish_rows, ring_count, ring_size,
}

fish_rows_positive : {W : Type 0} (d : Double W) (n : ℕ) → 0 < fish_rows d n
unfolding fish_rows
fish_rows_positive d n = omega arith

-- How many crossbows stand, `k`, when there should be `n`.
abbrev pub Placed : FormationType → ℕ → ℕ → Type 0
Placed line_abreast n k = k ≡ n
Placed wedge n k = k ≡ n
Placed echelon_left n k = k ≡ n
Placed echelon_right n k = k ≡ n
Placed vee n k = k ≡ n
Placed archer_parabola n k = k ≡ n
Placed coiled_bow n k = (12 ≤ k) × (k ≤ n)
Placed crane_wing n k = k ≡ n
Placed square_grid n k = k ≡ n
Placed fish_scale n k = k ≡ n
Placed custom n k = k ≡ 0

module _ {W : Type 0} (d : Double W) where
  get-bounds :
      (t : FormationType)
      → (get {W = W} ⦃d = d⦄ t).min_crossbows ≤ (get {W = W} ⦃d = d⦄ t).max_crossbows
  unfolding get
  get-bounds line_abreast = omega arith
  get-bounds wedge = omega arith
  get-bounds echelon_left = omega arith
  get-bounds echelon_right = omega arith
  get-bounds vee = omega arith
  get-bounds archer_parabola = omega arith
  get-bounds coiled_bow = omega arith
  get-bounds crane_wing = omega arith
  get-bounds square_grid = omega arith
  get-bounds fish_scale = omega arith
  get-bounds custom = omega arith

  clamp_count-bounds :
      (t : FormationType) (num : ℤ)
      → ((get {W = W} ⦃d = d⦄ t).min_crossbows ≤ clamp_count (get {W = W} ⦃d = d⦄ t) num)
        × (clamp_count (get {W = W} ⦃d = d⦄ t) num ≤ (get {W = W} ⦃d = d⦄ t).max_crossbows)
  unfolding clamp_count
  clamp_count-bounds t num = let h = get-bounds t in (omega arith, omega arith)

  get-coiled : 12 ≤ (get {W = W} ⦃d = d⦄ coiled_bow).min_crossbows
  unfolding get
  get-coiled = omega arith

  get-custom : (get {W = W} ⦃d = d⦄ custom).max_crossbows ≡ 0
  unfolding get
  get-custom = refl

module _ {W : Type 0} ⦃d : Double W⦄ where
  length-add_crossbow :
      (site : Site W) (post : Post W) (ps : List (CrossbowPlacement W))
      → length (add_crossbow site post ps) ≡ suc (length ps)
  unfolding add_crossbow
  length-add_crossbow site post ps = omega (arith, length-append ps (_ ∷ []))

  length-add_posts :
      (site : Site W) (post : ℕ → Post W) (n i : ℕ) (ps : List (CrossbowPlacement W))
      → length (for_range (add_post site post) n i ps) ≡ length ps + n
  length-add_posts site post n i ps =
      length-for_range (add_post site post) (λ k s. length-add_crossbow site (post k) s) n i ps

  length-add_some :
      (site : Site W) (n : ℕ) (post : ℕ → Post W) (count i : ℕ) (ps : List (CrossbowPlacement W))
      → length ps ≤ n
      → length (for_while (below n) (add_post site post) count i ps) ≡ min n (length ps + count)
  length-add_some site n post count i ps h =
      length-for_while (add_post site post) n (λ k s. length-add_crossbow site (post k) s) count i
        ps h

  length-place_wedge : (site : Site W) (n : ℕ) → length (place_wedge site n) ≡ n
  unfolding place_wedge
  length-place_wedge site n = omega (
    arith,
    for_while-fills (λ row placed. add_row site n (wedge_post site row) (1 + row * 2) placed) n 1
        (λ row ps h.
          let e = length-add_some site n (wedge_post site row) (1 + row * 2) 0 ps h in
          (omega arith, omega arith))
        n 0 [] (omega arith),
  )

  length-place_vee : (site : Site W) (n : ℕ) → length (place_vee site n) ≡ n
  unfolding place_vee for_range
  length-place_vee site n =
      let half = (n + 1) / 2 in
      let left = for_while (below n) (add_post site (vee_post site 0)) half 1 [] in
      let e0 = length-add_some site n (vee_post site 0) half 1 [] (omega arith) in
      let e1 = length-add_some site n (vee_post site 1) half 1 left (omega arith) in omega arith

  length-place_coiled :
      (site : Site W) (n : ℕ)
      → 12 ≤ n
      → (12 ≤ length (place_coiled site n)) × (length (place_coiled site n) ≤ n)
  unfolding place_coiled ring_size ring_count
  length-place_coiled site n h =
      let (most, least) =
        for_while-fills
          (λ r placed.
            add_row site n (coiled_post site r (ring_size site r)) (ring_size site r) placed)
          n 6
          (λ r ps h'.
            let e =
              length-add_some site n (coiled_post site r (ring_size site r)) (ring_size site r) 0 ps
                h' in
            (omega arith, omega arith))
          (ring_count d n) 0 [] (omega arith) in
      (omega arith, omega arith)

  length-place_crane : (site : Site W) (n : ℕ) → length (place_crane site n) ≡ n
  unfolding place_crane for_range
  length-place_crane site n =
      let wing = n / 3 in
      let c = n - 2 * wing in
      let s0 = for_range (add_post site (crane_center_post site c)) c 0 [] in
      let s1 = for_range (add_post site (crane_wing_post site c 0)) wing 1 s0 in
      let e0 = length-add_posts site (crane_center_post site c) c 0 [] in
      let e1 = length-add_posts site (crane_wing_post site c 0) wing 1 s0 in
      let e2 = length-add_posts site (crane_wing_post site c 1) wing 1 s1 in omega arith

  length-place_grid :
      (site : Site W) (n : ℕ) → n ≤ grid_side d n * grid_side d n → length (place_grid site n) ≡ n
  unfolding place_grid
  length-place_grid site n h =
      let side = grid_side d n in
      let (most, least) =
        for_while-fills (λ i placed. add_row site n (grid_post site side i) side placed) n side
          (λ i ps h'.
            let e = length-add_some site n (grid_post site side i) side 0 ps h' in
            (omega arith, omega arith))
          side 0 [] (omega arith) in
      omega arith

  length-place_fish : (site : Site W) (n : ℕ) → length (place_fish site n) ≡ n
  unfolding place_fish
  length-place_fish site n =
      let rows = fish_rows d n in
      let cols = (n + rows - 1) / rows in
      omega (
        arith,
        rounded_up n rows (fish_rows_positive d n),
        for_range-fills _ n cols
            (λ r ps.
              length-add_posts site (fish_post site (min cols (n - r * cols)) r)
                (min cols (n - r * cols)) 0 ps)
            rows 0 [] (omega arith),
      )

module _ {W : Type 0} ⦃d : Double W⦄ where
  place-Placed :
      (t : FormationType) (site : Site W) (num : ℤ)
      → clamp_count (get {W = W} t) num
        ≤ grid_side d (clamp_count (get {W = W} t) num)
          * grid_side d (clamp_count (get {W = W} t) num)
      → Placed t
          (clamp_count (get {W = W} t) num)
          (length (place t site (clamp_count (get {W = W} t) num)))
  unfolding place
  place-Placed line_abreast site num root = omega (
    arith,
    length-add_posts site (line_post site (clamp_count (get {W = W} line_abreast) num))
        (clamp_count (get {W = W} line_abreast) num) 0 [],
  )
  place-Placed wedge site num root = length-place_wedge site (clamp_count (get {W = W} wedge) num)
  place-Placed echelon_left site num root = omega (
    arith,
    length-add_posts site (echelon_post site (negsuc 0))
        (clamp_count (get {W = W} echelon_left) num) 0 [],
  )
  place-Placed echelon_right site num root = omega (
    arith,
    length-add_posts site (echelon_post site (pos 1)) (clamp_count (get {W = W} echelon_right) num)
        0 [],
  )
  place-Placed vee site num root = length-place_vee site (clamp_count (get {W = W} vee) num)
  place-Placed archer_parabola site num root = omega (
    arith,
    length-add_posts site (parabola_post site (clamp_count (get {W = W} archer_parabola) num))
        (clamp_count (get {W = W} archer_parabola) num) 0 [],
  )
  place-Placed coiled_bow site num root =
      let b = clamp_count-bounds d coiled_bow num in
      length-place_coiled site (clamp_count (get {W = W} coiled_bow) num)
        (omega (arith, get-coiled d))
  place-Placed crane_wing site num root =
      length-place_crane site (clamp_count (get {W = W} crane_wing) num)
  place-Placed square_grid site num root =
      length-place_grid site (clamp_count (get {W = W} square_grid) num) root
  place-Placed fish_scale site num root =
      length-place_fish site (clamp_count (get {W = W} fish_scale) num)
  place-Placed custom site num root =
      let b = clamp_count-bounds d custom num in
      omega (
        arith,
        get-custom d,
        length-add_posts site (other_post site) (clamp_count (get {W = W} custom) num) 0 [],
      )

  -- A formation has as many crossbows as are asked for, brought within the bounds of its design; a coiled
  -- bow can have fewer, but 12 at least, and a custom formation has none at all. The rounded root of the
  -- count is to be no less than the root.
  pub generate_formation-Placed :
      (s : FormationSimulator W) (t : FormationType) (num : ℤ)
      (center_x center_y orientation spacing : W)
      → clamp_count (get {W = W} t) num
        ≤ grid_side d (clamp_count (get {W = W} t) num)
          * grid_side d (clamp_count (get {W = W} t) num)
      → ((get {W = W} t).min_crossbows ≤ clamp_count (get {W = W} t) num)
        × (clamp_count (get {W = W} t) num ≤ (get {W = W} t).max_crossbows)
        × Placed t
            (clamp_count (get {W = W} t) num)
            (length (generate_formation s t num center_x center_y orientation spacing))
  unfolding generate_formation
  generate_formation-Placed s t num center_x center_y orientation spacing root =
      let (low, high) = clamp_count-bounds d t num in (low, high, place-Placed t _ num root)
