-- ===== src/Examples/Scores.antt =====
-- The trust score, the features, the models and the trusted value on concrete inputs.
use trust_aware_self_healing.Shared.{
  ℕ, ◌+◌, ◌*◌, ◌≤◌, ◌≡◌, ◌↔◌, refl, Bool, true, false, none, some, List, [], ◌∷◌, ◌++◌, arith,
}
use trust_aware_self_healing.Shared.Int.{ℤ}
use trust_aware_self_healing.Floats.Fixed.{fixed, fixed-IsExact}
use trust_aware_self_healing.Mongo.Listed.{listed-IsMongo}
use trust_aware_self_healing.Models.{healthy, faulty, ActuatorMode}
use trust_aware_self_healing.Store.Run.{ok}
use trust_aware_self_healing.Store.Db.{State, ModelFile, ModelSlot, Detector}
use trust_aware_self_healing.Store.SameResult.{map_result}
use trust_aware_self_healing.TrustEngine.{HealthDoc, update_trust}
use trust_aware_self_healing.TrustEngine.Scoring.{
  TrustParameters, TrustSnapshot, default_parameters, score, score_all,
}
use trust_aware_self_healing.TrustEngine.Recovery.{
  whole_all, whole_status, repeat, score_all-refines, faults-reach-faulty,
  healthy_iff_enough_readings,
}
use trust_aware_self_healing.TrustEngine.Events.{previous, events_after, update_trust-fault_events}
use trust_aware_self_healing.TrustEngine.Persistence.{health_view, sensor_view, update_trust-Shows}
use trust_aware_self_healing.Features.{compute_feature_vector, compute_feature_matrix}
use trust_aware_self_healing.Features.Causality.{compute_feature_matrix-causal}
use trust_aware_self_healing.ModelCache.{get_model}
use trust_aware_self_healing.ModelCache.Freshness.{IsCurrent, loaded, get_model-Current}
use trust_aware_self_healing.VirtualSensor.{compute_trusted_value}
use trust_aware_self_healing.VirtualSensor.Leakage.{
  value_and_source, trusted_value-independent_of_raw,
}
use trust_aware_self_healing.Examples.Database.{
  env, units, temp_01, database, stored_reading, fault_prediction, range_detector,
}

abbrev fresh : TrustSnapshot ℤ
fresh = record {
  trust = units 100;
  consecutive_faults = 0;
  consecutive_healthy = 0;
  status = healthy;
}

abbrev quiet : State env
quiet = database ActuatorMode.auto []

abbrev mixed : List Bool
mixed = true ∷ false ∷ true ∷ true ∷ []

scores_of_mixed : (score_all fixed (default_parameters fixed) mixed fresh).trust ≡ units 45
unfolding score_all score
scores_of_mixed = refl

-- The ceiling was lowered to 50 while the score stood at 100.
abbrev lowered : TrustParameters ℤ
lowered = record {
  fault_penalty = units 20;
  recovery_gain = units 5;
  trust_min = units 0;
  trust_max = units 50;
  faulty_threshold = units 20;
  healthy_threshold = units 40;
}

score_all-refines_example :
    let after = score_all fixed (default_parameters fixed) mixed fresh in
    (after.trust ≡ units (whole_all mixed 100))
    × (after.status ≡ whole_status (whole_all mixed 100))
score_all-refines_example =
    score_all-refines fixed (fixed-IsExact 105) true (false ∷ true ∷ true ∷ []) fresh 100
      (omega arith) refl

faults-reach-faulty_example :
    (score_all fixed (default_parameters fixed) (repeat 3 true) fresh).status ≡ faulty
faults-reach-faulty_example =
    faults-reach-faulty fixed (fixed-IsExact 105) 0 fresh 100 (omega arith) refl

abbrev low : TrustSnapshot ℤ
low = record fresh { trust = units 40; status = faulty }

healthy_iff_enough_readings_example :
    ((score_all fixed (default_parameters fixed) (repeat 10 false) low).status ≡ healthy)
    ↔ (90 ≤ 40 + 5 * 10)
healthy_iff_enough_readings_example =
    healthy_iff_enough_readings fixed (fixed-IsExact 105) 9 low 40 (omega arith) refl

update_trust-Shows_example :
    (h : HealthDoc ℤ) × ((update_trust env fault_prediction quiet).0 ≡ ok h)
    × (health_view env "TEMP_01" (update_trust env fault_prediction quiet).1
        ≡ some (h.trust_score, h.status))
    × (sensor_view env "TEMP_01" (update_trust env fault_prediction quiet).1
        ≡ some (h.trust_score, h.status))
update_trust-Shows_example =
    update_trust-Shows env listed-IsMongo fault_prediction quiet temp_01 refl refl

abbrev series : List ℤ
series = units 20 ∷ units 21 ∷ []

compute_feature_matrix-causal_example :
    (rest : List (List ℤ)) × (compute_feature_matrix fixed
        (units 15)
        (units 40)
        (series ++ (units 22 ∷ units 90 ∷ []))
      ≡ compute_feature_matrix fixed (units 15) (units 40) series
        ++ (compute_feature_vector fixed (units 22) (units 15) (units 40) series ∷ rest))
compute_feature_matrix-causal_example =
    compute_feature_matrix-causal fixed (units 15) (units 40) series (units 22) (units 90 ∷ [])

abbrev cached : ModelSlot (Detector ℤ)
cached = record {
  file = some (record { mtime = 1; content = some range_detector });
  cache = some (range_detector, 1);
}

get_model-Current_example :
    let (r, slot') = get_model cached in
    (r ≡ loaded cached.file) × IsCurrent slot'.file slot'.cache × (slot'.file ≡ cached.file)
get_model-Current_example = get_model-Current cached (λ e. refl)

-- The new file cannot be loaded.
abbrev broken : ModelFile (Detector ℤ)
broken = record { mtime = 2; content = none }

trusted_value-independent_of_raw_example :
    map_result (value_and_source env) (compute_trusted_value env (stored_reading 99) faulty quiet).0
    ≡ map_result
        (value_and_source env)
        (compute_trusted_value env (stored_reading 7) faulty quiet).0
trusted_value-independent_of_raw_example =
    trusted_value-independent_of_raw env (stored_reading 99) (units 7) faulty quiet refl

update_trust-fault_events_example :
    let before = previous env fault_prediction temp_01 none in
    (h : HealthDoc ℤ) × ((update_trust env fault_prediction quiet).0 ≡ ok h)
    × ((i : ℕ) × ((update_trust env fault_prediction quiet).1.fault_events
          ≡ events_after env fault_prediction before h 1000 i []))
update_trust-fault_events_example =
    update_trust-fault_events env fault_prediction quiet temp_01 refl refl
