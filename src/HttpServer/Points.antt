-- ===== src/HttpServer/Points.antt =====
-- How many points of a trajectory backend/src/http_server.cpp sends.
use ai_solo_coder_task_b.Prelude.{
  ℕ, zero, suc, ◌+◌, ◌*◌, ◌-◌, ◌/◌, ◌≤◌, max, ◌≡◌, refl, length-append, List, [], ◌∷◌, length,
  arith,
}
use ai_solo_coder_task_b.HttpServer.Replies.{every_from, last_one, sampled}

step_bound :
    (n kept step : ℕ) → step ≡ max 1 (n / 200) → step * kept + 0 ≤ n + (step - 1) → kept ≤ 399
step_bound n kept step e h = grind arith

module _ {A : Type 0} where
  -- A kept element stands for a full step of elements, the last one perhaps for less.
  every_from_lem :
      (step left : ℕ) (xs : List A)
      → 1 ≤ step
      → left ≤ step - 1
      → step * length (every_from step left xs) + left ≤ length xs + (step - 1)
  unfolding every_from
  every_from_lem step left [] some_step h = omega arith
  every_from_lem step zero (x ∷ xs) some_step h =
      let rest = every_from_lem step (step - 1) xs some_step (omega arith) in grind arith
  every_from_lem step (suc left) (x ∷ xs) some_step h =
      let rest = every_from_lem step left xs some_step (omega arith) in omega arith

  last_one-length : (xs : List A) → length (last_one xs) ≤ 1
  last_one-length [] = omega arith
  last_one-length (x ∷ []) = omega arith
  last_one-length (x ∷ y ∷ xs) = last_one-length (y ∷ xs)

  -- However long the trajectory is, at most 400 of its points are sent.
  pub sampled-length : (points : List A) → length (sampled points) ≤ 400
  unfolding sampled
  sampled-length points =
      let step = max 1 (length points / 200) in
      let kept = every_from step 0 points in
      let few =
        step_bound (length points) (length kept) step refl
          (every_from_lem step 0 points (omega arith) (omega arith)) in
      omega (arith, few, length-append kept (last_one points), last_one-length points)
