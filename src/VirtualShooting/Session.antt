-- ===== src/VirtualShooting/Session.antt =====
-- The targets and the shots of a session: what every operation keeps.
use ai_solo_coder_task_b.Prelude.{
  if_keeps, ℕ, ◌+◌, ◌-◌, ◌&&◌, subst, ◌^◌, ◌≤◌, ◌<◌, ◌≡◌, refl, not, List, [], ◌∷◌, ◌++◌, arith,
  ltb, if◌then◌else◌, length, length-append, All, All-append,
}
use ai_solo_coder_task_b.Double.{Double}
use ai_solo_coder_task_b.VirtualShooting.{
  push_shot, blank_shot, VirtualTarget, VirtualShot, ShootingSessionConfig, VirtualShooting,
  Ballistics, start_session, add_target, remove_target, shoot, fire, drop_id, strike, new_target,
  zero_m, out_of_reach, compute_distance, next_uint32, validate_parameters,
}

module _ {W : Type 0} ⦃d : Double W⦄ where
  open d use {lit, le}

  -- The identifiers rise from the oldest target to the newest, and stay below the bound.
  abbrev pub IdsBelow : ℕ → List (VirtualTarget W) → Type 0
  IdsBelow bound [] = Unit
  IdsBelow bound (t ∷ ts) = (t.id < bound) × All (λ u. t.id < u.id) ts × IdsBelow bound ts

  -- A target is destroyed exactly if its health is at most 0.
  abbrev pub IsHonest : VirtualTarget W → Type 0
  IsHonest t = t.destroyed ≡ le t.health zero_m

  pub record IsSession (s : VirtualShooting W) : Type 0 where
    pub bounded : length s.targets ≤ s.config.max_targets
    pub ids : IdsBelow s.next_target_id s.targets
    pub honest : All IsHonest s.targets

  IdsBelow-append :
      (n : ℕ) (ts : List (VirtualTarget W)) (t : VirtualTarget W)
      → t.id ≡ n
      → IdsBelow n ts
      → IdsBelow (n + 1) (ts ++ (t ∷ []))
  IdsBelow-append n [] t e h = omega arith
  IdsBelow-append n (u ∷ ts) t e h =
      (omega arith, later ts h.1 (omega arith), IdsBelow-append n ts t e h.2)
    where
      later :
          (us : List (VirtualTarget W))
          → All (λ v. u.id < v.id) us
          → u.id < t.id
          → All (λ v. u.id < v.id) (us ++ (t ∷ []))
      later us a b = All-append (λ v. u.id < v.id) us (t ∷ []) a (b, tt)

  -- The session with one more target.
  abbrev added : W → W → W → W → VirtualShooting W → VirtualShooting W
  added x y radius health s = record s {
    targets = s.targets ++ (new_target x y radius health s ∷ []);
    next_target_id = next_uint32 s.next_target_id;
  }

  -- A target is added exactly in an active session with room for it, within the distances of the
  -- configuration; else nothing changes.
  pub add_target-answer :
      (x y radius health : W) (s : VirtualShooting W)
      → let room =
          s.session_active
          && ltb (length s.targets) s.config.max_targets
          && not (out_of_reach s.config (compute_distance x y)) in
        add_target x y radius health s ≡ (room, if room then added x y radius health s else s)
  unfolding add_target
  add_target-answer x y radius health s = ground arith

  IdsBelow-grow :
      (n : ℕ) (ts : List (VirtualTarget W))
      → n < 2 ^ 32 - 1
      → IdsBelow (n + 1) ts
      → IdsBelow (next_uint32 n) ts
  IdsBelow-grow n ts h b = subst (λ k. IdsBelow k ts) (omega arith) b

  added-IsSession :
      (x y radius health : W) (s : VirtualShooting W)
      → s.next_target_id < 2 ^ 32 - 1
      → length s.targets < s.config.max_targets
      → IsSession s
      → IsSession (added x y radius health s)
  added-IsSession x y radius health s few room v =
      let t = new_target x y radius health s in
      record {
        bounded = omega (arith, length-append s.targets (t ∷ []));
        ids =
            IdsBelow-grow s.next_target_id (s.targets ++ (t ∷ [])) few
              (IdsBelow-append s.next_target_id s.targets t refl v.ids);
        honest = All-append IsHonest s.targets (t ∷ []) v.honest (refl, tt);
      }

  -- Adding a target keeps the session well formed, as long as the identifiers do not wrap.
  pub add_target-IsSession :
      (x y radius health : W) (s : VirtualShooting W)
      → s.next_target_id < 2 ^ 32 - 1
      → IsSession s
      → IsSession (add_target x y radius health s).1
  unfolding add_target
  add_target-IsSession x y radius health s few v =
      ground (arith, added-IsSession x y radius health s few)

  drop_id-All :
      (P : VirtualTarget W → Type 0) (id : ℕ) (ts : List (VirtualTarget W))
      → All P ts
      → All P (drop_id id ts)
  unfolding drop_id
  drop_id-All P id [] a = tt
  drop_id-All P id (t ∷ ts) a = ground (arith, drop_id-All P id ts a.1)

  drop_id-IdsBelow :
      (n id : ℕ) (ts : List (VirtualTarget W)) → IdsBelow n ts → IdsBelow n (drop_id id ts)
  unfolding drop_id
  drop_id-IdsBelow n id [] b = tt
  drop_id-IdsBelow n id (t ∷ ts) b =
      ground (arith, drop_id-IdsBelow n id ts b.2, drop_id-All (λ u. t.id < u.id) id ts b.1)

  length-drop_id : (id : ℕ) (ts : List (VirtualTarget W)) → length (drop_id id ts) ≤ length ts
  unfolding drop_id
  length-drop_id id [] = omega arith
  length-drop_id id (t ∷ ts) = ground (arith, length-drop_id id ts)

  -- Removing a target keeps the session well formed.
  pub remove_target-IsSession :
      (id : ℕ) (s : VirtualShooting W) → IsSession s → IsSession (remove_target id s).1
  unfolding remove_target
  remove_target-IsSession id s v = ground (
    arith,
    length-drop_id id s.targets,
    drop_id-IdsBelow s.next_target_id id s.targets v.ids,
    drop_id-All IsHonest id s.targets v.honest,
  )

  -- What a shot may change in a list of targets: nothing but health and its consequence.
  strike-ids :
      (x y : W) (n : ℕ) (ts : List (VirtualTarget W))
      → All (λ t. n < t.id) ts
      → All (λ t. n < t.id) (strike x y ts).left
  unfolding strike
  strike-ids x y n [] a = tt
  strike-ids x y n (t ∷ ts) a = ground (arith, strike-ids x y n ts a.1)

  strike-IdsBelow :
      (x y : W) (n : ℕ) (ts : List (VirtualTarget W))
      → IdsBelow n ts
      → IdsBelow n (strike x y ts).left
  unfolding strike
  strike-IdsBelow x y n [] a = tt
  strike-IdsBelow x y n (t ∷ ts) a =
      ground (arith, strike-IdsBelow x y n ts a.2, strike-ids x y t.id ts a.1)

  length-strike : (x y : W) (ts : List (VirtualTarget W)) → length (strike x y ts).left ≡ length ts
  unfolding strike
  length-strike x y [] = refl
  length-strike x y (t ∷ ts) = ground (arith, length-strike x y ts)

  strike-IsHonest :
      (x y : W) (ts : List (VirtualTarget W)) → All IsHonest ts → All IsHonest (strike x y ts).left
  unfolding strike
  strike-IsHonest x y [] a = tt
  strike-IsHonest x y (t ∷ ts) a = ground (arith, strike-IsHonest x y ts a.1)

  module _ (model : Ballistics W) where
    shoot-IsSession :
        (errors : W → W × W) (distance angle velocity : W) (s : VirtualShooting W)
        → IsSession s
        → IsSession (shoot model errors distance angle velocity s).1
    unfolding shoot
    shoot-IsSession errors distance angle velocity s v = record {
      bounded = rw (length-strike _ _ s.targets) v.bounded;
      ids = strike-IdsBelow _ _ _ s.targets v.ids;
      honest = strike-IsHonest _ _ s.targets v.honest;
    }

    -- A shot keeps the session well formed: it destroys a target exactly when its health runs out.
    pub fire-IsSession :
        (errors : W → W × W) (s : VirtualShooting W)
        → IsSession s
        → IsSession (fire model errors s).1
    unfolding fire
    fire-IsSession errors s v =
        let blank : IsSession (push_shot (blank_shot s) s).1 = record {
          bounded = v.bounded;
          ids = v.ids;
          honest = v.honest;
        } in
        if_keeps {A = VirtualShot W × VirtualShooting W} (λ r. IsSession r.1) (not s.session_active)
          _ _ blank
          (if_keeps {A = VirtualShot W × VirtualShooting W} (λ r. IsSession r.1)
            (validate_parameters s.config s.current_aim_x s.current_aim_y _ _) _ _
            (shoot-IsSession errors _ _ _ s v) blank)

  pub start_session-IsSession :
      (c : ShootingSessionConfig W) (s : VirtualShooting W) → IsSession (start_session c s)
  unfolding start_session
  start_session-IsSession c s = record { bounded = omega arith; ids = tt; honest = tt }
