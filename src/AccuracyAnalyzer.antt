-- ===== src/AccuracyAnalyzer.antt =====
-- backend/src/accuracy_analyzer.cpp: the statistics of the shots of a crossbow.
pub mod Adjustments
mod Tests
use Prim.Native.String.{String}
use ai_solo_coder_task_b.Prelude.{
  ℕ, ◌-◌, ◌^◌, ◌%◌, Bool, true, false, List, [], ◌∷◌, ◌++◌, map, ltb, leb, if◌then◌else◌, length,
}
use ai_solo_coder_task_b.Double.{Double, ◌⊕◌, ◌⊖◌, ◌⊗◌, ◌⊘◌, of_size}
use ai_solo_coder_task_b.Sensor.{SensorData, AccuracyAnalysis}

module _ {W : Type 0} ⦃d : Double W⦄ where
  open d use {lit, neg, lt, le, sqrt, log, erfc, abs}

  abbrev pub zero_s : W
  zero_s = lit 0 0

  -- `sum += v` over the values.
  unfoldable pub sum_from : W → List W → W
  sum_from sum [] = sum
  sum_from sum (v ∷ vs) = sum_from (sum ⊕ v) vs

  unfoldable pub calculate_mean : List W → W
  unfolding sum_from
  calculate_mean [] = zero_s
  calculate_mean (v ∷ vs) = sum_from zero_s (v ∷ vs) ⊘ of_size (length (v ∷ vs))

  -- `sum_sq += diff * diff` over the values.
  unfoldable pub squares_from : W → W → List W → W
  squares_from mean sum [] = sum
  squares_from mean sum (v ∷ vs) = let diff = v ⊖ mean in squares_from mean (sum ⊕ diff ⊗ diff) vs

  unfoldable pub calculate_std : List W → W → W
  unfolding squares_from
  calculate_std values mean =
      if ltb (length values) 2
      then zero_s
      else sqrt (squares_from mean zero_s values ⊘ of_size (length values - 1))

  unfoldable pub normal_cdf : W → W
  normal_cdf x = lit 5 1 ⊗ erfc (neg x ⊘ sqrt (lit 2 0))

  -- `(c * q + c') * q + …`, from the first coefficient.
  unfoldable pub horner : W → W → List W → W
  horner q c [] = c
  horner q c (c' ∷ cs) = horner q (c ⊗ q ⊕ c') cs

  unfoldable pub tail_numerator : W → W
  unfolding horner
  tail_numerator q = horner q (neg (lit 7784894002430293 18)) (
      neg (lit 3223964580411365 16)
      ∷ neg (lit 2400758277161838 15)
      ∷ neg (lit 2549732539343734 15)
      ∷ lit 4374664141464968 15
      ∷ lit 2938163982698783 15
      ∷ [])

  unfoldable pub tail_denominator : W → W
  unfolding horner
  tail_denominator q =
      horner q (lit 7784695709041462 18)
        (lit 3224671290700398 16 ∷ lit 2445134137142996 15 ∷ lit 3754408661907416 15 ∷ lit 1 0 ∷ [])

  unfoldable pub central_quantile : W → W
  unfolding horner
  central_quantile q =
      let r = q ⊗ q in
      horner r (neg (lit 3969683028665376 14)) (
        lit 2209460984245205 13
        ∷ neg (lit 2759285104469687 13)
        ∷ lit 1383577518672690 13
        ∷ neg (lit 3066479806614716 14)
        ∷ lit 2506628277459239 15
        ∷ [])
      ⊗ q
      ⊘ horner r (neg (lit 5447609879822406 14)) (
          lit 1615858368580409 13
          ∷ neg (lit 1556989798598866 13)
          ∷ lit 6680131188771972 14
          ∷ neg (lit 1328068155288572 14)
          ∷ lit 1 0
          ∷ [])

  unfoldable pub normal_quantile : W → W
  unfolding tail_numerator tail_denominator central_quantile
  normal_quantile p =
      let plow = lit 2425 5 in
      let phigh = lit 1 0 ⊖ plow in
      let low = sqrt (neg (lit 2 0) ⊗ log p) in
      let high = sqrt (neg (lit 2 0) ⊗ log (lit 1 0 ⊖ p)) in
      if le p zero_s
      then neg (lit (10 ^ 300) 0)
      else if le (lit 1 0) p
      then lit (10 ^ 300) 0
      else if lt p plow
      then tail_numerator low ⊘ tail_denominator low
      else if le p phigh
      then central_quantile (p ⊖ lit 5 1)
      else neg (tail_numerator high) ⊘ tail_denominator high

  unfoldable pub calculate_circular_error_probable : W → W → W
  calculate_circular_error_probable std_x std_y =
      sqrt (std_x ⊗ std_x ⊕ std_y ⊗ std_y) ⊗ sqrt (lit 2 0 ⊗ log (lit 2 0))

  -- The loop over the ranges and the angles: the sums of `dr * da` and of `dr * dr`.
  unfoldable pub regress : W → W → List (SensorData W) → W → W → W × W
  regress mean_range mean_angle [] numerator denominator = (numerator, denominator)
  regress mean_range mean_angle (shot ∷ shots) numerator denominator =
      let dr = shot.range ⊖ mean_range in
      let da = shot.aim_angle ⊖ mean_angle in
      regress mean_range mean_angle shots (numerator ⊕ dr ⊗ da) (denominator ⊕ dr ⊗ dr)

  abbrev slope : W × W → W
  slope sums = if lt sums.1 (lit 1 10) then zero_s else sums.0 ⊘ sums.1

  unfoldable pub calculate_optimal_sight_scale : List (SensorData W) → W
  unfolding calculate_mean regress
  calculate_optimal_sight_scale [] = zero_s
  calculate_optimal_sight_scale (shot ∷ shots) =
      let all = shot ∷ shots in
      slope (
        regress (calculate_mean (map (λ s. s.range) all))
          (calculate_mean (map (λ s. s.aim_angle) all)) all zero_s zero_s)

  unfoldable pub range_bins : List W
  range_bins =
      lit 50 0
      ∷ lit 100 0
      ∷ lit 150 0
      ∷ lit 200 0
      ∷ lit 250 0
      ∷ lit 300 0
      ∷ lit 400 0
      ∷ lit 500 0
      ∷ lit 600 0
      ∷ []

  -- The shots whose range is near a target's.
  unfoldable pub nearby_shots : W → List (SensorData W) → List (SensorData W)
  nearby_shots target_range [] = []
  nearby_shots target_range (shot ∷ shots) =
      let rest = nearby_shots target_range shots in
      if lt (abs (shot.range ⊖ target_range)) (lit 30 0) then shot ∷ rest else rest

  -- What a bin's shots call for.
  unfoldable pub adjustment : List (SensorData W) → W
  unfolding calculate_mean
  adjustment nearby =
      let mx = calculate_mean (map (λ s. s.spread_x) nearby) in
      let my = calculate_mean (map (λ s. s.spread_y) nearby) in neg (lit 5 1) ⊗ (mx ⊕ my)

  -- The loop over the bins.
  unfoldable pub adjust_bins : List (SensorData W) → List W → List (W × W)
  unfolding nearby_shots adjustment
  adjust_bins shots [] = []
  adjust_bins shots (r ∷ bins) =
      let rest = adjust_bins shots bins in
      let nearby = nearby_shots r shots in
      if leb 3 (length nearby) then (r, adjustment nearby) ∷ rest else rest

  unfoldable pub calculate_sight_adjustments : List (SensorData W) → List (W × W)
  unfolding adjust_bins range_bins
  calculate_sight_adjustments shots =
      if ltb (length shots) 5 then [] else adjust_bins shots range_bins

  -- The fields of a `uint32_t` and of the time of the call stand before the statistics.
  unfoldable pub analyze : ℕ → String → ℕ → List (SensorData W) → AccuracyAnalysis W
  unfolding calculate_mean calculate_std calculate_circular_error_probable
      calculate_optimal_sight_scale calculate_sight_adjustments
  analyze crossbow_id crossbow_name now [] = record {
    crossbow_id = crossbow_id;
    crossbow_name = crossbow_name;
    analysis_date = now;
    total_shots = 0;
    mean_spread_x = zero_s;
    mean_spread_y = zero_s;
    std_spread_x = zero_s;
    std_spread_y = zero_s;
    circular_error_probable = zero_s;
    mean_velocity = zero_s;
    std_velocity = zero_s;
    mean_range = zero_s;
    optimal_sight_scale = zero_s;
    sight_adjustments = [];
  }
  analyze crossbow_id crossbow_name now (shot ∷ rest) =
      let shots = shot ∷ rest in
      let spread_x = map (λ s. s.spread_x) shots in
      let spread_y = map (λ s. s.spread_y) shots in
      let velocities = map (λ s. s.arrow_velocity) shots in
      let ranges = map (λ s. s.range) shots in
      let std_x = calculate_std spread_x (calculate_mean spread_x) in
      let std_y = calculate_std spread_y (calculate_mean spread_y) in
      record {
        crossbow_id = crossbow_id;
        crossbow_name = crossbow_name;
        analysis_date = now;
        total_shots = length shots % 2 ^ 32;
        mean_spread_x = calculate_mean spread_x;
        mean_spread_y = calculate_mean spread_y;
        std_spread_x = std_x;
        std_spread_y = std_y;
        circular_error_probable = calculate_circular_error_probable std_x std_y;
        mean_velocity = calculate_mean velocities;
        std_velocity = calculate_std velocities (calculate_mean velocities);
        mean_range = calculate_mean ranges;
        optimal_sight_scale = calculate_optimal_sight_scale shots;
        sight_adjustments = calculate_sight_adjustments shots;
      }
