-- ===== src/Features/Causality.antt =====
-- ml/feature_engineering.py and ml/virtual_sensor_features.py: the rows for training beside the
-- features in service, and what they depend on.
use trust_aware_self_healing.Shared.{ℕ, ◌≡◌, ap, List, [], ◌∷◌, ◌++◌}
use mathlib.Core.List.{append_assoc, append-nil}
use trust_aware_self_healing.Floats.{Floats}
use trust_aware_self_healing.Features.{
  compute_feature_vector, matrix_from, compute_feature_matrix, compute_virtual_features,
  virtual_matrix_from, compute_virtual_feature_matrix,
}

module _ (fl : Floats) (normal_min normal_max : fl.F) where
  open fl use {F}

  matrix_from-append :
      (before xs ys : List F)
      → matrix_from fl normal_min normal_max before (xs ++ ys)
        ≡ matrix_from fl normal_min normal_max before xs
          ++ matrix_from fl normal_min normal_max (before ++ xs) ys
  unfolding matrix_from
  matrix_from-append before [] ys = simp append-nil
  matrix_from-append before (x ∷ xs) ys =
      simp (matrix_from-append (before ++ (x ∷ [])) xs ys, append_assoc)

  -- The rows of a series of readings are those of its beginning, unchanged by what comes later; and the
  -- row of the next reading is what the service computes for it, with the readings before it as
  -- its history.
  pub compute_feature_matrix-causal :
      (earlier : List F) (value : F) (later : List F)
      → (rest : List (List F)) × (compute_feature_matrix fl normal_min normal_max
            (earlier ++ (value ∷ later))
          ≡ compute_feature_matrix fl normal_min normal_max earlier
            ++ (compute_feature_vector fl value normal_min normal_max earlier ∷ rest))
  unfolding compute_feature_matrix
  compute_feature_matrix-causal earlier value later = (
    matrix_from fl normal_min normal_max (earlier ++ (value ∷ [])) later,
    matrix_from-append [] earlier (value ∷ later),
  )

  abbrev pub values : List (ℕ × F) → List F
  values [] = []
  values ((t, v) ∷ rest) = v ∷ values rest

  virtual-append_rows :
      (before : List F) (xs : List (ℕ × F)) (t : ℕ) (v : F) (ys : List (ℕ × F))
      → (rest : List (List F)) × ((virtual_matrix_from fl normal_min normal_max before
            (xs ++ ((t, v) ∷ ys))).0
          ≡ (virtual_matrix_from fl normal_min normal_max before xs).0
            ++ (compute_virtual_features fl t normal_min normal_max (before ++ values xs) ∷ rest))
  unfolding virtual_matrix_from
  virtual-append_rows before [] t v ys =
      ((virtual_matrix_from fl normal_min normal_max (before ++ (v ∷ [])) ys).0, simp append-nil)
  virtual-append_rows before ((u, x) ∷ xs) t v ys =
      let (rest, e) = virtual-append_rows (before ++ (x ∷ [])) xs t v ys in
      (
        rest,
        ap (λ r. compute_virtual_features fl u normal_min normal_max before ∷ r)
            (simp append_assoc at e),
      )

  -- The virtual sensor's rows of a series are those of its beginning, unchanged by what comes later;
  -- and the row of the next reading is what the service computes for its time with the values before it
  -- as its history, whatever its own value is.
  pub compute_virtual_feature_matrix-causal :
      (earlier : List (ℕ × F)) (t : ℕ) (v : F) (later : List (ℕ × F))
      → (rest : List (List F)) × ((compute_virtual_feature_matrix fl normal_min normal_max
            (earlier ++ ((t, v) ∷ later))).0
          ≡ (compute_virtual_feature_matrix fl normal_min normal_max earlier).0
            ++ (compute_virtual_features fl t normal_min normal_max (values earlier) ∷ rest))
  unfolding compute_virtual_feature_matrix
  compute_virtual_feature_matrix-causal earlier t v later = virtual-append_rows [] earlier t v later
