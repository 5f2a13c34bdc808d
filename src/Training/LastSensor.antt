-- ===== src/Training/LastSensor.antt =====
-- ml/train_isolation_forest.py: `sensors_by_id`, the dictionary of the sensors by their ids.
use trust_aware_self_healing.Shared.{
  ◌≡◌, refl, ◌∙◌, true, false, Bool, Option, none, some, List, [], ◌∷◌, String, str_eq,
  if◌then◌else◌,
}
use trust_aware_self_healing.Models.{Sensor}
use trust_aware_self_healing.Training.Datasets.{sensor_of}

-- The sensor of an id: the last one that is stored under it.
abbrev pub last_sensor :
    {F : Type 0} → Option (Sensor F) → List (Sensor F) → String → Option (Sensor F)
last_sensor before [] k = before
last_sensor before (d ∷ ds) k = last_sensor (if str_eq d.sensor_id k then some d else before) ds k

module _ {F : Type 0} where
  abbrev or_before : Option (Sensor F) → Option (Sensor F) → Option (Sensor F)
  or_before (some d) before = some d
  or_before none before = before

  sensor_of-last :
      (ds : List (Sensor F)) (before : Option (Sensor F)) (k : String)
      → last_sensor before ds k ≡ or_before (sensor_of ds k) before
  unfolding sensor_of
  sensor_of-last [] before k = refl
  sensor_of-last (d ∷ ds) before k =
      sensor_of-last ds _ k ∙ by_rest (sensor_of ds k) (str_eq d.sensor_id k)
    where
      by_rest :
          (later : Option (Sensor F)) (b : Bool)
          → or_before later (if b then some d else before)
            ≡ or_before
                (elim later as (λ x. Option (Sensor F)) [
                  | some e ↦ some e
                  | none ↦ if b then some d else none
                ])
                before
      by_rest (some e) b = refl
      by_rest none true = refl
      by_rest none false = refl

  pub sensor_of_lem : (ds : List (Sensor F)) (k : String) → last_sensor none ds k ≡ sensor_of ds k
  sensor_of_lem ds k = sensor_of-last ds none k ∙ or_none (sensor_of ds k)
    where
      or_none : (o : Option (Sensor F)) → or_before o none ≡ o
      or_none none = refl
      or_none (some d) = refl
