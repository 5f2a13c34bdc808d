-- ===== src/Training/Clean.antt =====
-- ml/train_random_forest.py: what the training rows of the virtual sensor depend on.
use trust_aware_self_healing.Shared.{
  ℕ, zero, suc, ◌≡◌, refl, ap, ◌∙◌, sym, Bool, Option, none, some, List, [], ◌∷◌, ◌++◌, String,
  take, length, ltb, if◌then◌else◌, Bool-cases, inl, inr,
}
use mathlib.Core.List.{append_assoc, append-nil}
use trust_aware_self_healing.Floats.{Floats}
use trust_aware_self_healing.Models.{Sensor, Reading}
use trust_aware_self_healing.Features.{
  compute_virtual_features, normalize, virtual_matrix_from, compute_virtual_feature_matrix,
}
use trust_aware_self_healing.Training.Datasets.{split_index, Groups, sensor_of}
use trust_aware_self_healing.Training.RandomForest.{
  TrainingSet, nothing, clean_of, series, add_clean, add_group, build_from, build_dataset,
}
use trust_aware_self_healing.Training.Leakage.{SamePast, take-map}

-- The series that are left when the readings labelled faulty are taken out.
abbrev pub cleaned : {F : Type 0} → List (ℕ × Bool) → Groups F → Groups F
cleaned labels [] = []
cleaned labels ((k, rs) ∷ g) = (k, clean_of labels rs) ∷ cleaned labels g

module _ (fl : Floats) where
  open fl use {F}

  -- The first n rows and targets.
  abbrev first_rows : ℕ → List (List F) × List F → List (List F) × List F
  first_rows n q = (take n q.0, take n q.1)

  take-virtual :
      (lo hi : F) (n : ℕ) (before : List F) (xs : List (ℕ × F))
      → first_rows n (virtual_matrix_from fl lo hi before xs)
        ≡ virtual_matrix_from fl lo hi before (take n xs)
  unfolding virtual_matrix_from
  take-virtual lo hi zero before xs = refl
  take-virtual lo hi (suc n) before [] = refl
  take-virtual lo hi (suc n) before ((t, v) ∷ xs) =
      ap
        (λ (q : List (List F) × List F).
          (compute_virtual_features fl t lo hi before ∷ q.0, normalize fl v lo hi ∷ q.1))
        (take-virtual lo hi n (before ++ (v ∷ [])) xs)

  matrix : Sensor F → List (Reading F) → List (List F) × List F
  matrix d clean = compute_virtual_feature_matrix fl d.normal_min d.normal_max (series clean)

  take-matrix :
      (d : Sensor F) (n : ℕ) (clean : List (Reading F))
      → first_rows n (matrix d clean) ≡ matrix d (take n clean)
  unfolding matrix compute_virtual_feature_matrix
  take-matrix d n clean =
      take-virtual d.normal_min d.normal_max n [] (series clean)
      ∙ ap (virtual_matrix_from fl d.normal_min d.normal_max [])
          (take-map (λ (r : Reading F). (r.timestamp, r.value)) n clean)

  -- The training rows and targets of one sensor.
  rows_of : Option (Sensor F) → List (Reading F) → List (List F) × List F
  unfolding matrix
  rows_of none clean = ([], [])
  rows_of (some d) clean =
      if ltb (length clean) 2
      then ([], [])
      else first_rows (split_index (length clean)) (matrix d clean)

  abbrev joined : List (List F) × List F → List (List F) × List F → List (List F) × List F
  joined q r = (q.0 ++ r.0, q.1 ++ r.1)

  all_rows : List (Sensor F) → Groups F → List (List F) × List F
  unfolding rows_of
  all_rows sensors [] = ([], [])
  all_rows sensors ((k, clean) ∷ rest) =
      joined (rows_of (sensor_of sensors k) clean) (all_rows sensors rest)

  abbrev pub training : TrainingSet F → List (List F) × List F
  training d = (d.train_X, d.train_y)

  joined-nil : (q : List (List F) × List F) → q ≡ joined q ([], [])
  joined-nil (xs, ys) = simp append-nil

  joined_assoc : (p q r : List (List F) × List F) → joined (joined p q) r ≡ joined p (joined q r)
  joined_assoc p q r = simp append_assoc

  add_group-rows_of :
      (acc : TrainingSet F) (k : String) (o : Option (Sensor F)) (clean : List (Reading F))
      → training (add_group fl acc k o clean) ≡ joined (training acc) (rows_of o clean)
  unfolding add_group add_clean rows_of
  add_group-rows_of acc k none clean = joined-nil (training acc)
  add_group-rows_of acc k (some d) clean = elim (Bool-cases (ltb (length clean) 2)) [
    | inl few ↦ rw few (joined-nil (training acc))
    | inr enough ↦ rw enough refl
  ]

  build_from-all_rows :
      (sensors : List (Sensor F)) (labels : List (ℕ × Bool)) (acc : TrainingSet F)
      (groups : Groups F)
      → training (build_from fl sensors labels acc groups)
        ≡ joined (training acc) (all_rows sensors (cleaned labels groups))
  unfolding build_from all_rows
  build_from-all_rows sensors labels acc [] = joined-nil (training acc)
  build_from-all_rows sensors labels acc ((k, rs) ∷ rest) =
      let clean = clean_of labels rs in
      let own = rows_of (sensor_of sensors k) clean in
      build_from-all_rows sensors labels (add_group fl acc k (sensor_of sensors k) clean) rest
      ∙ ap (λ q. joined q (all_rows sensors (cleaned labels rest)))
          (add_group-rows_of acc k (sensor_of sensors k) clean)
      ∙ joined_assoc (training acc) own (all_rows sensors (cleaned labels rest))

  rows_of-past :
      (o : Option (Sensor F)) (rs qs : List (Reading F))
      → length rs ≡ length qs
      → take (split_index (length rs)) rs ≡ take (split_index (length rs)) qs
      → rows_of o rs ≡ rows_of o qs
  unfolding rows_of
  rows_of-past none rs qs e p = refl
  rows_of-past (some d) rs qs e p = rw (← e) (
      ap (λ xs. if ltb (length rs) 2 then ([], []) else xs)
        (take-matrix d (split_index (length rs)) rs
          ∙ ap (matrix d) p
          ∙ sym (take-matrix d (split_index (length rs)) qs)))

  all_rows-past :
      (sensors : List (Sensor F)) (g h : Groups F)
      → SamePast g h
      → all_rows sensors g ≡ all_rows sensors h
  unfolding all_rows
  all_rows-past sensors [] [] p = refl
  all_rows-past sensors [] (q ∷ h) p = absurd p
  all_rows-past sensors (q ∷ g) [] p = absurd p
  all_rows-past sensors ((k, rs) ∷ g) ((j, qs) ∷ h) (same, lengths, past, rest) =
      rw
        (
          ← same,
          rows_of-past (sensor_of sensors k) rs qs lengths past,
          all_rows-past sensors g h rest,
        )
        refl

  -- The training rows and targets of the virtual sensor depend only on the first 80% of each sensor's
  -- readings that are not labelled faulty. Two databases that agree on these, sensor by sensor, and on
  -- how many such readings there are, give the same rows and targets, whatever else they hold.
  pub train_rows_clean :
      (sensors : List (Sensor F)) (g h : Groups F) (labels other_labels : List (ℕ × Bool))
      → SamePast (cleaned labels g) (cleaned other_labels h)
      → training (build_dataset fl sensors g labels)
        ≡ training (build_dataset fl sensors h other_labels)
  unfolding build_dataset
  train_rows_clean sensors g h labels other_labels past =
      build_from-all_rows sensors labels nothing g
      ∙ all_rows-past sensors (cleaned labels g) (cleaned other_labels h) past
      ∙ sym (build_from-all_rows sensors other_labels nothing h)
