-- ===== src/Training/RandomForest.antt =====
-- ml/train_random_forest.py.
use trust_aware_self_healing.Shared.{
  ℕ, Bool, false, Option, none, some, List, [], ◌∷◌, ◌++◌, String, map, take, length, ltb as ltb_ℕ,
  ◌==◌, if◌then◌else◌,
}
use trust_aware_self_healing.Floats.{Floats}
use trust_aware_self_healing.Models.{Sensor, Reading}
use trust_aware_self_healing.Features.{compute_virtual_feature_matrix}
use trust_aware_self_healing.Store.Run.{Run, Result, ok, err, pure, lift, system_exit, ◌>>=◌, ◌>>◌}
use trust_aware_self_healing.Store.Db.{Env, State, Regressor}
use trust_aware_self_healing.Training.Datasets.{
  min_readings_required, split_index, drop, Groups, sensor_of, total_readings,
  load_readings_by_sensor,
}

pub record TrainingSet (F : Type 0) : Type 0 where
  pub train_X : List (List F)
  pub train_y : List F
  pub eval_X : List (List F)
  pub eval_y : List F
  pub eval_sensor_ids : List String

abbrev pub nothing : {F : Type 0} → TrainingSet F
nothing = record { train_X = []; train_y = []; eval_X = []; eval_y = []; eval_sensor_ids = [] }

-- `fault_labels.get(id, False)`
abbrev pub is_faulty : List (ℕ × Bool) → ℕ → Bool
is_faulty [] i = false
is_faulty ((j, faulty) ∷ rest) i = let older = is_faulty rest i in if j == i then faulty else older

-- The readings that are not labelled faulty.
unfoldable pub clean_of : {F : Type 0} → List (ℕ × Bool) → List (Reading F) → List (Reading F)
clean_of fault_labels [] = []
clean_of fault_labels (r ∷ rs) =
    let rest = clean_of fault_labels rs in if is_faulty fault_labels r.id then rest else r ∷ rest

abbrev pub series : {F : Type 0} → List (Reading F) → List (ℕ × F)
series clean = map (λ (r : Reading _). (r.timestamp, r.value)) clean

module _ (fl : Floats) where
  open fl use {F}

  unfoldable pub add_clean : TrainingSet F → String → Sensor F → List (Reading F) → TrainingSet F
  add_clean acc sensor_id sensor clean =
      let (xs, ys) =
        compute_virtual_feature_matrix fl sensor.normal_min sensor.normal_max (series clean) in
      let split_idx = split_index (length clean) in
      record {
        train_X = acc.train_X ++ take split_idx xs;
        train_y = acc.train_y ++ take split_idx ys;
        eval_X = acc.eval_X ++ drop split_idx xs;
        eval_y = acc.eval_y ++ drop split_idx ys;
        eval_sensor_ids =
            acc.eval_sensor_ids ++ map (λ (r : Reading F). sensor_id) (drop split_idx clean);
      }

  unfoldable pub add_group :
      TrainingSet F → String → Option (Sensor F) → List (Reading F) → TrainingSet F
  unfolding add_clean
  add_group acc sensor_id none clean = acc
  add_group acc sensor_id (some sensor) clean =
      if ltb_ℕ (length clean) 2 then acc else add_clean acc sensor_id sensor clean

  unfoldable pub build_from :
      List (Sensor F) → List (ℕ × Bool) → TrainingSet F → Groups F → TrainingSet F
  unfolding add_group clean_of
  build_from sensors fault_labels acc [] = acc
  build_from sensors fault_labels acc ((k, readings) ∷ rest) =
      build_from sensors fault_labels
        (add_group acc k (sensor_of sensors k) (clean_of fault_labels readings)) rest

  unfoldable pub build_dataset : List (Sensor F) → Groups F → List (ℕ × Bool) → TrainingSet F
  unfolding build_from
  build_dataset sensors groups fault_labels = build_from sensors fault_labels nothing groups

module _ (env : Env) where
  open env use {floats.{F}}

  abbrev require : ℕ → Result (Unit {0})
  require n = if ltb_ℕ n min_readings_required then err system_exit else ok tt

  -- `joblib.dump`
  unfoldable pub dump : Regressor F → Run (State env) (Unit {0})
  unfolding pure
  dump model s = pure tt (record s {
    regressor = record s.regressor {
      file = some (record { mtime = s.clock; content = some model });
    };
  })

  -- `main`, up to what it prints and writes beside the model.
  unfoldable pub main :
      (List (List F) → List F → Regressor F) → List (ℕ × Bool) → Run (State env) (TrainingSet F)
  unfolding dump
  main fit fault_labels = do
    loaded ← load_readings_by_sensor env
    lift (require (total_readings loaded.1))
    let dataset = build_dataset env.floats loaded.0 loaded.1 fault_labels
    lift (require (length dataset.train_X))
    dump (fit dataset.train_X dataset.train_y)
    pure dataset
