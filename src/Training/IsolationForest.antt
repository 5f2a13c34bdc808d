-- ===== src/Training/IsolationForest.antt =====
-- ml/train_isolation_forest.py.
use trust_aware_self_healing.Shared.{
  ℕ, suc, ◌+◌, ◌==◌, Bool, true, false, ◌&&◌, not, Option, none, some, List, [], ◌∷◌, ◌++◌, String,
  map, take, length, ltb as ltb_ℕ, is_some, if◌then◌else◌,
}
use trust_aware_self_healing.Floats.{Floats, of_ℕ, eqb, max, min}
use trust_aware_self_healing.Models.{Sensor, Reading}
use trust_aware_self_healing.Features.{compute_feature_matrix}
use trust_aware_self_healing.Store.Run.{Run, Result, ok, err, pure, lift, system_exit, ◌>>=◌, ◌>>◌}
use trust_aware_self_healing.Store.Db.{Env, State, Detector, Label, inlier, outlier}
use trust_aware_self_healing.Training.Datasets.{
  min_readings_required, split_index, drop, Groups, sensor_of, total_readings,
  load_readings_by_sensor,
}

pub record Dataset (F : Type 0) : Type 0 where
  pub train_X : List (List F)
  pub eval_X : List (List F)
  pub eval_ids : List ℕ
  pub eval_values : List F
  pub eval_sensor_ids : List String

abbrev pub no_data : {F : Type 0} → Dataset F
no_data = record {
  train_X = [];
  eval_X = [];
  eval_ids = [];
  eval_values = [];
  eval_sensor_ids = [];
}

-- `labels`: the id of a reading, with the fault that was injected, if there was one.
abbrev pub Labels : Type 0
Labels = List (ℕ × Option String)

abbrev pub label_of : Labels → ℕ → Option (Option String)
label_of [] i = none
label_of ((j, label) ∷ rest) i =
    let older = label_of rest i in
    elim older [ some l ↦ some l | none ↦ if j == i then some label else none ]

module _ (fl : Floats) where
  open fl use {F, add, mul, div}

  abbrev pub features_of : Sensor F → List (Reading F) → List (List F)
  features_of sensor readings =
      compute_feature_matrix fl sensor.normal_min sensor.normal_max
        (map (λ (r : Reading F). r.value) readings)

  -- One round of the loop, for a sensor that is known and has two readings.
  unfoldable pub add_sensor : Dataset F → String → Sensor F → List (Reading F) → Dataset F
  add_sensor acc sensor_id sensor readings =
      let split_idx = split_index (length readings) in
      let features = features_of sensor readings in
      let held_out = drop split_idx readings in
      record {
        train_X = acc.train_X ++ take split_idx features;
        eval_X = acc.eval_X ++ drop split_idx features;
        eval_ids = acc.eval_ids ++ map (λ (r : Reading F). r.id) held_out;
        eval_values = acc.eval_values ++ map (λ (r : Reading F). r.value) held_out;
        eval_sensor_ids = acc.eval_sensor_ids ++ map (λ (r : Reading F). sensor_id) held_out;
      }

  -- `sensor is None or len(readings) < 2` skips a sensor.
  unfoldable pub add_group : Dataset F → String → Option (Sensor F) → List (Reading F) → Dataset F
  unfolding add_sensor
  add_group acc sensor_id none readings = acc
  add_group acc sensor_id (some sensor) readings =
      if ltb_ℕ (length readings) 2 then acc else add_sensor acc sensor_id sensor readings

  unfoldable pub build_from : List (Sensor F) → Dataset F → Groups F → Dataset F
  unfolding add_group
  build_from sensors acc [] = acc
  build_from sensors acc ((k, readings) ∷ rest) =
      build_from sensors (add_group acc k (sensor_of sensors k) readings) rest

  unfoldable pub build_dataset : List (Sensor F) → Groups F → Dataset F
  unfolding build_from
  build_dataset sensors groups = build_from sensors no_data groups

  abbrev pub is_outlier : Label → Bool
  is_outlier inlier = false
  is_outlier outlier = true

  -- The pairs of the truth and the prediction, for the ids that are labelled.
  unfoldable pub labelled : Labels → List ℕ → List Label → List (Bool × Bool)
  labelled labels [] preds = []
  labelled labels (i ∷ ids) [] = []
  labelled labels (i ∷ ids) (pred ∷ preds) =
      let rest = labelled labels ids preds in
      elim (label_of labels i) [
        | none ↦ rest
        | some label ↦ (is_some label, is_outlier pred) ∷ rest
      ]

  -- `sum(1 for t, p in zip(...) if t == truth and p == prediction)`
  unfoldable pub tally : Bool → Bool → List (Bool × Bool) → ℕ
  tally truth prediction [] = 0
  tally truth prediction ((t, p) ∷ rest) =
      let more = tally truth prediction rest in
      if (if truth then t else not t) && (if prediction then p else not p) then suc more else more

  pub record Metrics : Type 0 where
    pub n_labeled_eval : ℕ
    pub tp : ℕ
    pub fp : ℕ
    pub fn : ℕ
    pub tn : ℕ
    pub precision : F
    pub recall : F
    pub f1 : F

  -- `n / d if d else 0.0`
  abbrev ratio : ℕ → ℕ → F
  ratio n d = if d == 0 then of_ℕ fl 0 else div (of_ℕ fl n) (of_ℕ fl d)

  abbrev harmonic : F → F → F
  harmonic p r =
      if eqb fl (add p r) (of_ℕ fl 0) then of_ℕ fl 0 else div (mul (mul (of_ℕ fl 2) p) r) (add p r)

  unfoldable pub metrics_of : List (Bool × Bool) → Metrics
  unfolding tally
  metrics_of pairs =
      let tp = tally true true pairs in
      let fp = tally false true pairs in
      let fn = tally true false pairs in
      let tn = tally false false pairs in
      let precision = ratio tp (tp + fp) in
      let recall = ratio tp (tp + fn) in
      record {
        n_labeled_eval = length pairs;
        tp = tp;
        fp = fp;
        fn = fn;
        tn = tn;
        precision = fl.round precision 4;
        recall = fl.round recall 4;
        f1 = fl.round (harmonic precision recall) 4;
      }

  abbrev pub metrics_if_any : List (Bool × Bool) → Option Metrics
  metrics_if_any [] = none
  metrics_if_any (pair ∷ pairs) = some (metrics_of (pair ∷ pairs))

  -- `preds` is what `model.predict(eval_X)` returns.
  unfoldable pub evaluate_supervised : List Label → List ℕ → Labels → Option Metrics
  unfolding labelled metrics_of
  evaluate_supervised preds eval_ids [] = none
  evaluate_supervised preds eval_ids (label ∷ labels) =
      metrics_if_any (labelled (label ∷ labels) eval_ids preds)

  abbrev pub n_faulty : Labels → ℕ
  n_faulty [] = 0
  n_faulty ((i, label) ∷ rest) =
      let more = n_faulty rest in if is_some label then suc more else more

  -- The argument, else an estimate from the labels, else "auto" (none).
  unfoldable pub contamination : Option F → Labels → Option F
  contamination (some c) labels = some c
  contamination none [] = none
  contamination none (label ∷ labels) = some (
      max fl (fl.literal 1 2) (
        min fl (fl.literal 5 1)
          (div (of_ℕ fl (n_faulty (label ∷ labels))) (of_ℕ fl (length (label ∷ labels))))))

module _ (env : Env) where
  open env use {floats.{F}}

  abbrev require : ℕ → Result (Unit {0})
  require n = if ltb_ℕ n min_readings_required then err system_exit else ok tt

  -- `joblib.dump`
  unfoldable pub dump : Detector F → Run (State env) (Unit {0})
  unfolding pure
  dump model s = pure tt (record s {
    detector = record s.detector { file = some (record { mtime = s.clock; content = some model }) };
  })

  -- `main`, up to what it prints and writes beside the model; `fit` takes the contamination.
  unfoldable pub main :
      (Option F → List (List F) → Detector F) → Option F → Labels → Run (State env) (Dataset F)
  unfolding dump
  main fit chosen labels = do
    loaded ← load_readings_by_sensor env
    lift (require (total_readings loaded.1))
    let dataset = build_dataset env.floats loaded.0 loaded.1
    lift (require (length dataset.train_X))
    dump (fit (contamination env.floats chosen labels) dataset.train_X)
    pure dataset
