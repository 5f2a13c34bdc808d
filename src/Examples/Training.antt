-- ===== src/Examples/Training.antt =====
-- The training scripts on a short series of readings.
use trust_aware_self_healing.Shared.{
  map, ℕ, ◌≡◌, refl, true, false, Bool, none, some, List, [], ◌∷◌,
}
use trust_aware_self_healing.Shared.Int.{ℤ}
use trust_aware_self_healing.Models.{Reading}
use trust_aware_self_healing.Store.Db.{inlier, outlier}
use trust_aware_self_healing.Training.Datasets.{Groups, split_index}
use trust_aware_self_healing.Training.IsolationForest.{
  no_data, build_dataset, evaluate_supervised, Metrics, Labels, metrics_of,
}
use trust_aware_self_healing.Training.RandomForest
use trust_aware_self_healing.Training.RandomForest.{clean_of}
use trust_aware_self_healing.Training.Leakage.{SamePast, train_X-no_leakage}
use trust_aware_self_healing.Training.Clean.{cleaned, training, train_rows_clean}
use trust_aware_self_healing.Training.Counts.{IsAnswer, evaluate_supervised-counts}
use trust_aware_self_healing.Training.Partition.{
  Row, Adds, trained, held_out, build_dataset-partitions,
}
use trust_aware_self_healing.Examples.Database.{env, units, temp_01}

abbrev reading : ℕ → ℕ → Reading ℤ
reading i value = record { id = i; sensor_id = "TEMP_01"; value = units value; timestamp = i }

-- Five readings, of which the last is held out, and may be any value.
abbrev five : ℕ → Groups ℤ
five last =
    ("TEMP_01", reading 0 20 ∷ reading 1 21 ∷ reading 2 22 ∷ reading 3 21 ∷ reading 4 last ∷ [])
    ∷ []

five-SamePast : SamePast (five 20) (five 99)
unfolding split_index
five-SamePast = (refl, refl, refl, tt)

train_X-no_leakage_example :
    (build_dataset env.floats (temp_01 ∷ []) (five 20)).train_X
    ≡ (build_dataset env.floats (temp_01 ∷ []) (five 99)).train_X
train_X-no_leakage_example =
    train_X-no_leakage env.floats (temp_01 ∷ []) (five 20) (five 99) five-SamePast

-- With the reading 1 labelled faulty, it may be any value too.
abbrev labels : List (ℕ × Bool)
labels = (1, true) ∷ []

abbrev six : ℕ → ℕ → Groups ℤ
six faulty last =
    (
      "TEMP_01",
      reading 0 20
          ∷ reading 1 faulty
          ∷ reading 2 22
          ∷ reading 3 21
          ∷ reading 4 23
          ∷ reading 5 last
          ∷ [],
    )
    ∷ []

six-SamePast : SamePast (cleaned labels (six 99 20)) (cleaned labels (six 50 30))
unfolding split_index clean_of
six-SamePast = (refl, refl, refl, tt)

train_rows_clean_example :
    training env.floats (RandomForest.build_dataset env.floats (temp_01 ∷ []) (six 99 20) labels)
    ≡ training env.floats (RandomForest.build_dataset env.floats (temp_01 ∷ []) (six 50 30) labels)
train_rows_clean_example =
    train_rows_clean env.floats (temp_01 ∷ []) (six 99 20) (six 50 30) labels labels six-SamePast

build_dataset-partitions_example :
    Adds env.floats no_data
      (build_dataset env.floats (temp_01 ∷ []) (five 20))
      (trained env.floats (temp_01 ∷ []) (five 20))
      (held_out env.floats (temp_01 ∷ []) (five 20))
build_dataset-partitions_example = build_dataset-partitions env.floats (temp_01 ∷ []) (five 20)

-- The reading 4 is held out.
held_ids : map (λ (x : Row ℤ). x.reading.id) (held_out env.floats (temp_01 ∷ []) (five 20)) ≡ 4 ∷ []
held_ids = refl

abbrev known : Labels
known = (3, some "SPIKE") ∷ (4, none) ∷ (5, some "DRIFT") ∷ []

abbrev score : Metrics env.floats
unfolding metrics_of
score = metrics_of env.floats ((true, true) ∷ (false, true) ∷ (true, false) ∷ [])

evaluated :
    evaluate_supervised env.floats (outlier ∷ outlier ∷ inlier ∷ []) (3 ∷ 4 ∷ 5 ∷ []) known
    ≡ some score
unfolding evaluate_supervised
evaluated = refl

evaluate_supervised-counts_example :
    IsAnswer env.floats
      (outlier ∷ outlier ∷ inlier ∷ [])
      (3 ∷ 4 ∷ 5 ∷ [])
      known
      (evaluate_supervised env.floats (outlier ∷ outlier ∷ inlier ∷ []) (3 ∷ 4 ∷ 5 ∷ []) known)
evaluate_supervised-counts_example =
    evaluate_supervised-counts env.floats (outlier ∷ outlier ∷ inlier ∷ []) (3 ∷ 4 ∷ 5 ∷ []) known
