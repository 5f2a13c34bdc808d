-- ===== src/Training/Leakage.antt =====
-- ml/train_isolation_forest.py and ml/train_random_forest.py: what the training rows depend on.
use trust_aware_self_healing.Shared.{
  ℕ, zero, suc, ◌≡◌, refl, ap, ◌∙◌, sym, Option, none, some, List, [], ◌∷◌, ◌++◌, String, map, take,
  length, ltb, if◌then◌else◌, Bool-cases, inl, inr,
}
use mathlib.Core.List.{append_assoc, append-nil}
use trust_aware_self_healing.Floats.{Floats}
use trust_aware_self_healing.Models.{Sensor, Reading}
use trust_aware_self_healing.Features.{compute_feature_vector, matrix_from, compute_feature_matrix}
use trust_aware_self_healing.Training.Datasets.{split_index, Groups, sensor_of}
use trust_aware_self_healing.Training.IsolationForest.{
  Dataset, no_data, features_of, add_sensor, add_group, build_from, build_dataset,
}

pub take-map :
    {A B : Type 0} (f : A → B) (n : ℕ) (xs : List A) → take n (map f xs) ≡ map f (take n xs)
take-map f zero xs = refl
take-map f (suc n) [] = refl
take-map f (suc n) (x ∷ xs) = ap (λ r. f x ∷ r) (take-map f n xs)

module _ {F : Type 0} where
  -- The same sensors with as many readings each, of which the first 80% are the same.
  abbrev pub SamePast : Groups F → Groups F → Type 0
  SamePast [] [] = Unit
  SamePast ((k, rs) ∷ g) ((j, qs) ∷ h) =
      (k ≡ j)
      × (length rs ≡ length qs)
      × (take (split_index (length rs)) rs ≡ take (split_index (length rs)) qs)
      × SamePast g h
  SamePast _ _ = ⊥

module _ (fl : Floats) where
  open fl use {F}

  take-matrix :
      (lo hi : F) (n : ℕ) (before values : List F)
      → take n (matrix_from fl lo hi before values) ≡ matrix_from fl lo hi before (take n values)
  unfolding matrix_from
  take-matrix lo hi zero before values = refl
  take-matrix lo hi (suc n) before [] = refl
  take-matrix lo hi (suc n) before (v ∷ vs) =
      ap (λ r. compute_feature_vector fl v lo hi before ∷ r)
        (take-matrix lo hi n (before ++ (v ∷ [])) vs)

  take-features :
      (d : Sensor F) (n : ℕ) (rs : List (Reading F))
      → take n (features_of fl d rs) ≡ features_of fl d (take n rs)
  unfolding compute_feature_matrix
  take-features d n rs =
      take-matrix d.normal_min d.normal_max n [] (map (λ (r : Reading F). r.value) rs)
      ∙ ap (matrix_from fl d.normal_min d.normal_max [])
          (take-map (λ (r : Reading F). r.value) n rs)

  -- The training rows of one sensor.
  rows_of : Option (Sensor F) → List (Reading F) → List (List F)
  rows_of none rs = []
  rows_of (some d) rs =
      if ltb (length rs) 2 then [] else take (split_index (length rs)) (features_of fl d rs)

  all_rows : List (Sensor F) → Groups F → List (List F)
  unfolding rows_of
  all_rows sensors [] = []
  all_rows sensors ((k, rs) ∷ rest) = rows_of (sensor_of sensors k) rs ++ all_rows sensors rest

  add_group-rows_of :
      (acc : Dataset F) (k : String) (o : Option (Sensor F)) (rs : List (Reading F))
      → (add_group fl acc k o rs).train_X ≡ acc.train_X ++ rows_of o rs
  unfolding add_group add_sensor rows_of
  add_group-rows_of acc k none rs = sym (append-nil acc.train_X)
  add_group-rows_of acc k (some d) rs = elim (Bool-cases (ltb (length rs) 2)) [
    | inl few ↦ rw few (sym (append-nil acc.train_X))
    | inr enough ↦ rw enough refl
  ]

  build_from-all_rows :
      (sensors : List (Sensor F)) (acc : Dataset F) (groups : Groups F)
      → (build_from fl sensors acc groups).train_X ≡ acc.train_X ++ all_rows sensors groups
  unfolding build_from all_rows
  build_from-all_rows sensors acc [] = sym (append-nil acc.train_X)
  build_from-all_rows sensors acc ((k, rs) ∷ rest) =
      build_from-all_rows sensors (add_group fl acc k (sensor_of sensors k) rs) rest
      ∙ ap (λ xs. xs ++ all_rows sensors rest) (add_group-rows_of acc k (sensor_of sensors k) rs)
      ∙ append_assoc acc.train_X (rows_of (sensor_of sensors k) rs) (all_rows sensors rest)

  rows_of-past :
      (o : Option (Sensor F)) (rs qs : List (Reading F))
      → length rs ≡ length qs
      → take (split_index (length rs)) rs ≡ take (split_index (length rs)) qs
      → rows_of o rs ≡ rows_of o qs
  unfolding rows_of
  rows_of-past none rs qs e p = refl
  rows_of-past (some d) rs qs e p = rw (← e) (
      ap (λ xs. if ltb (length rs) 2 then [] else xs)
        (take-features d (split_index (length rs)) rs
          ∙ ap (features_of fl d) p
          ∙ sym (take-features d (split_index (length rs)) qs)))

  all_rows-past :
      (sensors : List (Sensor F)) (g h : Groups F)
      → SamePast g h
      → all_rows sensors g ≡ all_rows sensors h
  unfolding all_rows
  all_rows-past sensors [] [] p = refl
  all_rows-past sensors [] (q ∷ h) p = absurd p
  all_rows-past sensors (q ∷ g) [] p = absurd p
  all_rows-past sensors ((k, rs) ∷ g) ((j, qs) ∷ h) (same, lengths, past, rest) =
      rw
        (
          ← same,
          rows_of-past (sensor_of sensors k) rs qs lengths past,
          all_rows-past sensors g h rest,
        )
        refl

  -- No data leakage: the training rows of the fault detector depend on the first 80% of the readings of
  -- each sensor only. Two databases with the same sensors, as many readings of each, and the same first
  -- 80% of them give the same training rows, whatever the held-out readings are.
  pub train_X-no_leakage :
      (sensors : List (Sensor F)) (g h : Groups F)
      → SamePast g h
      → (build_dataset fl sensors g).train_X ≡ (build_dataset fl sensors h).train_X
  unfolding build_dataset
  train_X-no_leakage sensors g h past =
      build_from-all_rows sensors no_data g
      ∙ all_rows-past sensors g h past
      ∙ sym (build_from-all_rows sensors no_data h)
