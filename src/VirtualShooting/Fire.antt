-- ===== src/VirtualShooting/Fire.antt =====
-- What a shot records, and which target it hits.
use ai_solo_coder_task_b.Prelude.{
  ◌∙◌, if_keeps, inl, inr, ◌⊎◌, ap, ℕ, ◌+◌, ◌%◌, ◌^◌, ◌≡◌, refl, Bool, true, false, not, Option,
  none, some, List, [], ◌∷◌, ◌++◌, arith, ◌==◌, length, if◌then◌else◌, All,
}
use ai_solo_coder_task_b.Double.{Double}
use ai_solo_coder_task_b.VirtualShooting.{
  blank_stats, push_shot, blank_shot, score_hit, validate_parameters, VirtualTarget, VirtualShot,
  VirtualShooting, Ballistics, ShootingStats, Impact, shoot, fire, strike, is_hit, damage, tally,
  get_stats, next_uint32,
}

tally_step :
    (hit : Bool) (h m : ℕ)
    → ((if hit then next_uint32 h else h) + (if hit then m else next_uint32 m)) % 2 ^ 32
      ≡ (h + m + 1) % 2 ^ 32
tally_step true h m = omega arith
tally_step false h m = omega arith

module _ {W : Type 0} ⦃d : Double W⦄ where
  open d use {lit, le}

  -- A target that a shot passes: destroyed before, or away from the point of impact.
  abbrev pub IsPassed : W → W → VirtualTarget W → Type 0
  IsPassed x y t = (t.destroyed ≡ true) ⊎ (is_hit x y t ≡ false)

  -- What a shot at a point does to the targets: it passes all of them and leaves them as they are,
  -- or hits the first it does not pass, and damages that one alone.
  abbrev pub Struck : W → W → List (VirtualTarget W) → Impact W → Type 0
  Struck x y ts impact =
      (impact.hit ≡ none × impact.left ≡ ts × All (IsPassed x y) ts)
      ⊎ ((before : List (VirtualTarget W)) × (t : VirtualTarget W) × (after : List
            (VirtualTarget W))
          × (ts ≡ before ++ (t ∷ after))
          × All (IsPassed x y) before
          × (t.destroyed ≡ false)
          × (is_hit x y t ≡ true)
          × (impact.hit ≡ some (damage t))
          × (impact.left ≡ before ++ (damage t ∷ after)))

  pass :
      {x y : W} (u : VirtualTarget W) (us : List (VirtualTarget W)) {r : Impact W}
      → IsPassed x y u
      → Struck x y us r
      → Struck x y (u ∷ us) (record { hit = r.hit; left = u ∷ r.left })
  pass u us p (inl (e, k, a)) = inl (e, ap (λ vs. u ∷ vs) k, (p, a))
  pass u us p (inr (before, v, after, e, a, s, h, i, k)) =
      inr (u ∷ before, v, after, ap (λ vs. u ∷ vs) e, (p, a), s, h, i, ap (λ vs. u ∷ vs) k)

  -- A shot damages the first target that stands and that it hits, and no other.
  pub strike-Struck : (x y : W) (ts : List (VirtualTarget W)) → Struck x y ts (strike x y ts)
  unfolding strike
  strike-Struck x y [] = inl (refl, refl, tt)
  strike-Struck x y (t ∷ ts) = struck t.destroyed (is_hit x y t) (strike-Struck x y ts) refl refl
    where
      later : Impact W
      later = record { hit = (strike x y ts).hit; left = t ∷ (strike x y ts).left }

      struck :
          (gone near : Bool)
          → Struck x y ts (strike x y ts)
          → t.destroyed ≡ gone
          → is_hit x y t ≡ near
          → Struck x y (t ∷ ts) (
              if gone
              then later
              else if near
              then record { hit = some (damage t); left = damage t ∷ ts }
              else later)
      struck true near rest g n = pass t ts (inl g) rest
      struck false true rest g n = inr ([], t, ts, refl, tt, g, n, refl, refl)
      struck false false rest g n = pass t ts (inr n) rest

  -- One more shot, with the next identifier and the aim of the session.
  abbrev pub Records : VirtualShooting W → VirtualShot W × VirtualShooting W → Type 0
  Records s r =
      (r.1.shots ≡ s.shots ++ (r.0 ∷ []))
      × (r.0.id ≡ s.next_shot_id)
      × (r.1.next_shot_id ≡ next_uint32 s.next_shot_id)
      × (r.0.aim_x ≡ s.current_aim_x)
      × (r.0.aim_y ≡ s.current_aim_y)

  module _ (distance : W) (shot : VirtualShot W) where
    score_hit-id : (o : Option (VirtualTarget W)) → (score_hit o distance shot).id ≡ shot.id
    score_hit-id none = refl
    score_hit-id (some t) = refl

    score_hit-aim_x :
        (o : Option (VirtualTarget W)) → (score_hit o distance shot).aim_x ≡ shot.aim_x
    score_hit-aim_x none = refl
    score_hit-aim_x (some t) = refl

    score_hit-aim_y :
        (o : Option (VirtualTarget W)) → (score_hit o distance shot).aim_y ≡ shot.aim_y
    score_hit-aim_y none = refl
    score_hit-aim_y (some t) = refl

  module _ (model : Ballistics W) where
    -- Each `fire` records exactly one shot, the one that it returns, with the next identifier and the
    -- aim of the session, whether or not a session is active and the parameters are valid.
    pub fire-Records :
        (errors : W → W × W) (s : VirtualShooting W) → Records s (fire model errors s)
    unfolding fire shoot
    fire-Records errors s =
        let blank : Records s (push_shot (blank_shot s) s) = (refl, refl, refl, refl, refl) in
        if_keeps {A = VirtualShot W × VirtualShooting W} (Records s) (not s.session_active) _ _
          blank
          (if_keeps {A = VirtualShot W × VirtualShooting W} (Records s)
            (validate_parameters s.config s.current_aim_x s.current_aim_y _ _) _ _
            (refl, score_hit-id _ _ _, refl, score_hit-aim_x _ _ _, score_hit-aim_y _ _ _) blank)

  -- The counts of `tally` over the shots of a list.
  tally_counts :
      (shots : List (VirtualShot W)) (st : ShootingStats W)
      → ((tally shots st).hits + (tally shots st).misses) % 2 ^ 32
        ≡ (st.hits + st.misses + length shots) % 2 ^ 32
  unfolding tally
  tally_counts [] st = omega arith
  tally_counts (shot ∷ shots) st =
      tally_counts shots _
      ∙ omega (arith, tally_step (not (shot.hit_target_id == 0)) st.hits st.misses)

  tally-total_shots :
      (shots : List (VirtualShot W)) (st : ShootingStats W)
      → (tally shots st).total_shots ≡ st.total_shots
  unfolding tally
  tally-total_shots [] st = refl
  tally-total_shots (shot ∷ shots) st = tally-total_shots shots _

  -- Hits and misses together are the shots, on 32 bits, whatever the session.
  pub get_stats-total :
      (s : VirtualShooting W)
      → ((get_stats s).hits + (get_stats s).misses) % 2 ^ 32 ≡ (get_stats s).total_shots
  unfolding get_stats
  get_stats-total s =
      let blank = blank_stats (length s.shots % 2 ^ 32) in
      tally_counts s.shots blank ∙ omega (arith, tally-total_shots s.shots blank)
