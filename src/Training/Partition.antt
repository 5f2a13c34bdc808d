-- ===== src/Training/Partition.antt =====
-- ml/train_isolation_forest.py: what becomes of each reading in the two sets.
use mathlib.Core.List.{append_assoc, append-nil}
use trust_aware_self_healing.Shared.{
  ℕ, zero, suc, ◌+◌, ◌-◌, ◌/◌, ◌≤◌, ◌≡◌, refl, sym, ap, ◌∙◌, Option, none, some, List, [], ◌∷◌,
  ◌++◌, String, map, take, length, ltb, arith, if◌then◌else◌, Bool-cases, inl, inr,
}
use trust_aware_self_healing.Floats.{Floats}
use trust_aware_self_healing.Models.{Sensor, Reading}
use trust_aware_self_healing.Features.{compute_feature_vector, matrix_from, compute_feature_matrix}
use trust_aware_self_healing.Training.Datasets.{split_index, drop, Groups, sensor_of}
use trust_aware_self_healing.Training.LastSensor.{last_sensor, sensor_of_lem}
use trust_aware_self_healing.Training.IsolationForest.{
  Dataset, no_data, add_sensor, add_group, build_from, build_dataset,
}
use trust_aware_self_healing.Training.Leakage.{take-map}

drop-map : {A B : Type 0} (f : A → B) (n : ℕ) (xs : List A) → drop n (map f xs) ≡ map f (drop n xs)
drop-map f zero xs = refl
drop-map f (suc n) [] = refl
drop-map f (suc n) (x ∷ xs) = drop-map f n xs

map-++ : {A B : Type 0} (f : A → B) (xs ys : List A) → map f (xs ++ ys) ≡ map f xs ++ map f ys
map-++ f [] ys = refl
map-++ f (x ∷ xs) ys = ap (λ r. f x ∷ r) (map-++ f xs ys)

-- A row of a set: the reading that it comes from, with its features.
pub record Row (F : Type 0) : Type 0 where
  pub sensor_id : String
  pub reading : Reading F
  pub features : List F

-- The first 80% of n readings: all but a fifth, rounded up.
abbrev pub past : ℕ → ℕ
past n = n - (n + 4) / 5

split_index_lem : (n : ℕ) → 2 ≤ n → split_index n ≡ past n
unfolding split_index
split_index_lem n h = ground arith

module _ (fl : Floats) where
  open fl use {F}

  -- Each reading has one row: its features over the values of the readings before it.
  abbrev pub rows_after : Sensor F → String → List F → List (Reading F) → List (Row F)
  rows_after d k before [] = []
  rows_after d k before (r ∷ rs) =
      (record {
        sensor_id = k;
        reading = r;
        features = compute_feature_vector fl r.value d.normal_min d.normal_max before;
      })
      ∷ rows_after d k (before ++ (r.value ∷ [])) rs

  -- The rows of a known sensor that has two readings.
  abbrev pub rows : String → Option (Sensor F) → List (Reading F) → List (Row F)
  rows k none rs = []
  rows k (some d) rs = if ltb (length rs) 2 then [] else rows_after d k [] rs

  abbrev pub trained : List (Sensor F) → Groups F → List (Row F)
  trained sensors [] = []
  trained sensors ((k, rs) ∷ rest) =
      take (past (length rs)) (rows k (last_sensor none sensors k) rs) ++ trained sensors rest

  abbrev pub held_out : List (Sensor F) → Groups F → List (Row F)
  held_out sensors [] = []
  held_out sensors ((k, rs) ∷ rest) =
      drop (past (length rs)) (rows k (last_sensor none sensors k) rs) ++ held_out sensors rest

  -- The set with some rows more, of both kinds.
  pub record Adds (acc d : Dataset F) (train eval : List (Row F)) : Type 0 where
    pub train_X : d.train_X ≡ acc.train_X ++ map (λ (x : Row F). x.features) train
    pub eval_X : d.eval_X ≡ acc.eval_X ++ map (λ (x : Row F). x.features) eval
    pub eval_ids : d.eval_ids ≡ acc.eval_ids ++ map (λ (x : Row F). x.reading.id) eval
    pub eval_values : d.eval_values ≡ acc.eval_values ++ map (λ (x : Row F). x.reading.value) eval
    pub eval_sensor_ids :
        d.eval_sensor_ids ≡ acc.eval_sensor_ids ++ map (λ (x : Row F). x.sensor_id) eval

  more :
      {A : Type 0} (f : Row F → A) (a b c : List A) (xs ys : List (Row F))
      → b ≡ a ++ map f xs
      → c ≡ b ++ map f ys
      → c ≡ a ++ map f (xs ++ ys)
  more f a b c xs ys h k =
      k
      ∙ ap (λ z. z ++ map f ys) h
      ∙ append_assoc a (map f xs) (map f ys)
      ∙ ap (λ z. a ++ z) (sym (map-++ f xs ys))

  Adds-both :
      (a b c : Dataset F) (t u e g : List (Row F))
      → Adds a b t e
      → Adds b c u g
      → Adds a c (t ++ u) (e ++ g)
  Adds-both a b c t u e g h k = record {
    train_X = more _ _ _ _ t u h.train_X k.train_X;
    eval_X = more _ _ _ _ e g h.eval_X k.eval_X;
    eval_ids = more _ _ _ _ e g h.eval_ids k.eval_ids;
    eval_values = more _ _ _ _ e g h.eval_values k.eval_values;
    eval_sensor_ids = more _ _ _ _ e g h.eval_sensor_ids k.eval_sensor_ids;
  }

  Adds-none : (a : Dataset F) → Adds a a [] []
  Adds-none a = record {
    train_X = sym (append-nil _);
    eval_X = sym (append-nil _);
    eval_ids = sym (append-nil _);
    eval_values = sym (append-nil _);
    eval_sensor_ids = sym (append-nil _);
  }

  nothing : (n : ℕ) (a : Dataset F) → Adds a a (take n []) (drop n [])
  nothing zero a = Adds-none a
  nothing (suc n) a = Adds-none a

  features-rows :
      (d : Sensor F) (k : String) (before : List F) (rs : List (Reading F))
      → matrix_from fl d.normal_min d.normal_max before (map (λ (r : Reading F). r.value) rs)
        ≡ map (λ (x : Row F). x.features) (rows_after d k before rs)
  unfolding matrix_from
  features-rows d k before [] = refl
  features-rows d k before (r ∷ rs) =
      ap (λ z. compute_feature_vector fl r.value d.normal_min d.normal_max before ∷ z)
        (features-rows d k (before ++ (r.value ∷ [])) rs)

  readings-rows :
      {A : Type 0} (f : Reading F → A) (d : Sensor F) (k : String) (before : List F)
      (rs : List (Reading F))
      → map f rs ≡ map (λ (x : Row F). f x.reading) (rows_after d k before rs)
  readings-rows f d k before [] = refl
  readings-rows f d k before (r ∷ rs) =
      ap (λ z. f r ∷ z) (readings-rows f d k (before ++ (r.value ∷ [])) rs)

  names-rows :
      (d : Sensor F) (k : String) (before : List F) (rs : List (Reading F))
      → map (λ (r : Reading F). k) rs ≡ map (λ (x : Row F). x.sensor_id) (rows_after d k before rs)
  names-rows d k before [] = refl
  names-rows d k before (r ∷ rs) = ap (λ z. k ∷ z) (names-rows d k (before ++ (r.value ∷ [])) rs)

  -- A column of the held-out readings.
  held-column :
      {A : Type 0} (f : Reading F → A) (g : Row F → A) (n : ℕ) (rs : List (Reading F))
      (xs : List (Row F))
      → map f rs ≡ map g xs
      → map f (drop n rs) ≡ map g (drop n xs)
  held-column f g n rs xs h = sym (drop-map f n rs) ∙ ap (drop n) h ∙ drop-map g n xs

  add_sensor-Adds :
      (acc : Dataset F) (k : String) (d : Sensor F) (rs : List (Reading F)) (n : ℕ)
      → split_index (length rs) ≡ n
      → Adds acc
          (add_sensor fl acc k d rs)
          (take n (rows_after d k [] rs))
          (drop n (rows_after d k [] rs))
  unfolding add_sensor compute_feature_matrix
  add_sensor-Adds acc k d rs n e =
      let xs = rows_after d k [] rs in
      let features = features-rows d k [] rs in
      rw e (record {
        train_X = ap (λ z. acc.train_X ++ z) (ap (take n) features ∙ take-map _ n xs);
        eval_X = ap (λ z. acc.eval_X ++ z) (ap (drop n) features ∙ drop-map _ n xs);
        eval_ids =
            ap (λ z. acc.eval_ids ++ z)
              (held-column _ _ n rs xs (readings-rows (λ r. r.id) d k [] rs));
        eval_values =
            ap (λ z. acc.eval_values ++ z)
              (held-column _ _ n rs xs (readings-rows (λ r. r.value) d k [] rs));
        eval_sensor_ids =
            ap (λ z. acc.eval_sensor_ids ++ z) (held-column _ _ n rs xs (names-rows d k [] rs));
      })

  add_group-Adds :
      (acc : Dataset F) (k : String) (o : Option (Sensor F)) (rs : List (Reading F))
      → Adds acc
          (add_group fl acc k o rs)
          (take (past (length rs)) (rows k o rs))
          (drop (past (length rs)) (rows k o rs))
  unfolding add_group
  add_group-Adds acc k none rs = nothing (past (length rs)) acc
  add_group-Adds acc k (some d) rs = elim (Bool-cases (ltb (length rs) 2)) [
    | inl few ↦ rw few (nothing (past (length rs)) acc)
    | inr enough ↦
        rw enough (
          add_sensor-Adds acc k d rs (past (length rs))
            (split_index_lem (length rs) (ground arith)))
  ]

  build_from-Adds :
      (sensors : List (Sensor F)) (acc : Dataset F) (groups : Groups F)
      → Adds acc
          (build_from fl sensors acc groups)
          (trained sensors groups)
          (held_out sensors groups)
  unfolding build_from
  build_from-Adds sensors acc [] = Adds-none acc
  build_from-Adds sensors acc ((k, rs) ∷ rest) = rw (sensor_of_lem sensors k) (
      Adds-both _ _ _ _ _ _ _ (add_group-Adds acc k (sensor_of sensors k) rs)
        (build_from-Adds sensors (add_group fl acc k (sensor_of sensors k) rs) rest))

  -- Each reading of a known sensor with two readings or more is one row, with its own features over
  -- the values before it: the first readings of a sensor, all but a fifth of them rounded up, are the
  -- training rows, and the others are the evaluation rows, whose ids, values and sensors are in their
  -- order. There are no other rows, and the sensors come in the order of their groups.
  pub build_dataset-partitions :
      (sensors : List (Sensor F)) (groups : Groups F)
      → Adds no_data
          (build_dataset fl sensors groups)
          (trained sensors groups)
          (held_out sensors groups)
  unfolding build_dataset
  build_dataset-partitions sensors groups = build_from-Adds sensors no_data groups
