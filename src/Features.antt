-- ===== src/Features.antt =====
-- ml/feature_engineering.py and ml/virtual_sensor_features.py: the features of the two models.
pub mod Causality
use trust_aware_self_healing.Shared.{
  ℕ, ◌*◌, ◌/◌, ◌%◌, Bool, true, false, Option, none, some, List, [], ◌∷◌, ◌++◌, map, reverse, take,
  ltb as ltb_ℕ, length, if◌then◌else◌, or_else,
}
use trust_aware_self_healing.Floats.{Floats, of_ℕ, ltb, max, abs}

abbrev pub window : ℕ
window = 10

-- `xs[-n:]`, newest first.
abbrev pub newest : {A : Type 0} → ℕ → List A → List A
newest n xs = take n (reverse xs)

module _ (fl : Floats) where
  open fl use {F, leb, add, sub, mul, div, literal, fmean, pstdev}

  -- `normal_max - normal_min if normal_max > normal_min else 1.0`
  unfoldable pub span : F → F → F
  span normal_min normal_max =
      if ltb fl normal_min normal_max then sub normal_max normal_min else of_ℕ fl 1

  -- `statistics.pstdev(recent) if len(recent) > 1 else 0.0`
  abbrev pub spread : List F → F
  spread recent = if ltb_ℕ 1 (length recent) then pstdev recent else of_ℕ fl 0

  -- zscore, delta and stuck, on the history newest first; neutral with no history.
  unfoldable pub history_features : F → F → List F → List F
  history_features value span_ [] = of_ℕ fl 0 ∷ of_ℕ fl 0 ∷ of_ℕ fl 0 ∷ []
  history_features value span_ (previous ∷ older) =
      let recent = reverse (take window (previous ∷ older)) in
      let zscore = div (abs fl (sub value (fmean recent))) (add (spread recent) (literal 1 6)) in
      let distance = abs fl (sub value previous) in
      let delta = div distance span_ in
      let stuck = if ltb fl distance (literal 1 9) then of_ℕ fl 1 else of_ℕ fl 0 in
      zscore ∷ delta ∷ stuck ∷ []

  unfoldable pub compute_feature_vector : F → F → F → List F → List F
  unfolding span history_features
  compute_feature_vector value normal_min normal_max history_values =
      let s = span normal_min normal_max in
      let outside = max fl (max fl (of_ℕ fl 0) (sub normal_min value)) (sub value normal_max) in
      div outside s ∷ history_features value s (reverse history_values)

  -- The rows for `rest`, after the values `before`.
  unfoldable pub matrix_from : F → F → List F → List F → List (List F)
  matrix_from normal_min normal_max before [] = []
  matrix_from normal_min normal_max before (value ∷ rest) =
      compute_feature_vector value normal_min normal_max before
      ∷ matrix_from normal_min normal_max (before ++ (value ∷ [])) rest

  unfoldable pub compute_feature_matrix : F → F → List F → List (List F)
  unfolding matrix_from
  compute_feature_matrix normal_min normal_max values = matrix_from normal_min normal_max [] values

  unfoldable pub normalize : F → F → F → F
  unfolding span
  normalize value normal_min normal_max = div (sub value normal_min) (span normal_min normal_max)

  unfoldable pub denormalize : F → F → F → F
  unfolding span
  denormalize normalized normal_min normal_max =
      add (mul normalized (span normal_min normal_max)) normal_min

  -- Hour and minute, in UTC, of a time in microseconds, as an angle of the day.
  abbrev pub hour_angle : ℕ → F
  hour_angle timestamp =
      let hour = timestamp / 3_600_000_000 % 24 in
      let minute = timestamp / 60_000_000 % 60 in
      let hour_frac = add (of_ℕ fl hour) (div (of_ℕ fl minute) (of_ℕ fl 60)) in
      div (mul (mul (of_ℕ fl 2) fl.pi) hour_frac) (of_ℕ fl 24)

  -- lag_2 and lag_3 fall back on the lag before them.
  abbrev pub lag : F → List F → F
  lag fallback [] = fallback
  lag fallback (x ∷ xs) = x

  abbrev pub rest_of : List F → List F
  rest_of [] = []
  rest_of (x ∷ xs) = xs

  -- The six features of the normalized history, newest first; the midpoint with no history.
  unfoldable pub lag_features : List F → List F
  lag_features [] =
      let neutral = literal 5 1 in
      neutral ∷ neutral ∷ neutral ∷ neutral ∷ of_ℕ fl 0 ∷ of_ℕ fl 0 ∷ []
  lag_features (lag_1 ∷ older) =
      let recent = reverse (take window (lag_1 ∷ older)) in
      let lag_2 = lag lag_1 older in
      let lag_3 = lag lag_2 (rest_of older) in
      lag_1 ∷ lag_2 ∷ lag_3 ∷ fmean recent ∷ spread recent ∷ sub lag_1 lag_2 ∷ []

  unfoldable pub compute_virtual_features : ℕ → F → F → List F → List F
  unfolding lag_features normalize
  compute_virtual_features timestamp normal_min normal_max history_values =
      let normalized = map (λ v. normalize v normal_min normal_max) history_values in
      let angle = hour_angle timestamp in
      lag_features (reverse normalized) ++ (fl.sin angle ∷ fl.cos angle ∷ [])

  unfoldable pub virtual_matrix_from : F → F → List F → List (ℕ × F) → List (List F) × List F
  virtual_matrix_from normal_min normal_max before [] = ([], [])
  virtual_matrix_from normal_min normal_max before ((timestamp, value) ∷ rest) =
      let (xs, ys) = virtual_matrix_from normal_min normal_max (before ++ (value ∷ [])) rest in
      (
        compute_virtual_features timestamp normal_min normal_max before ∷ xs,
        normalize value normal_min normal_max ∷ ys,
      )

  -- Timestamps and values are zipped.
  unfoldable pub compute_virtual_feature_matrix : F → F → List (ℕ × F) → List (List F) × List F
  unfolding virtual_matrix_from
  compute_virtual_feature_matrix normal_min normal_max series =
      virtual_matrix_from normal_min normal_max [] series
