-- ===== src/SelfHealing.antt =====
-- services/self_healing.py: the record of the changes of a sensor's status.
use trust_aware_self_healing.Shared.{
  ℕ, Bool, Option, none, some, List, String, str_eq, if◌then◌else◌,
}
use trust_aware_self_healing.Models.{SensorStatus, status_eq, FaultEvent}
use trust_aware_self_healing.Store.Run.{Run, pure, lift, or_raise, not_found, ◌>>=◌, ◌>>◌}
use trust_aware_self_healing.Store.Db.{Env, State, fault_events, sensors}
use trust_aware_self_healing.Store.Driver.{now_utc, insert_one}
use trust_aware_self_healing.Listing.{newest_first, field_is, find_limited, find_newest}
use trust_aware_self_healing.Validators.{ensure_exists}

module _ (env : Env) where
  open env use {floats.{F}}

  unfoldable pub insert_event :
      String → SensorStatus → SensorStatus → F → ℕ → ℕ → Run (State env) (Option (FaultEvent F))
  insert_event sensor_id previous_status new_status trust_score trigger_reading_id timestamp = do
    now ← now_utc env
    let doc = λ (i : ℕ).
        let event : FaultEvent F = record {
          id = i;
          sensor_id = sensor_id;
          previous_status = previous_status;
          new_status = new_status;
          trust_score = trust_score;
          trigger_reading_id = trigger_reading_id;
          timestamp = timestamp;
          created_at = now;
        } in
        event
    inserted ← insert_one env (fault_events env) doc
    pure (some (doc inserted))

  unfoldable pub record_transition_if_changed :
      String → SensorStatus → SensorStatus → F → ℕ → ℕ → Run (State env) (Option (FaultEvent F))
  unfolding insert_event
  record_transition_if_changed sensor_id previous_status new_status trust_score trigger_reading_id
        timestamp =
      if status_eq previous_status new_status
      then pure none
      else insert_event sensor_id previous_status new_status trust_score trigger_reading_id
          timestamp

  abbrev event_order : FaultEvent F → FaultEvent F → Bool
  event_order d e = newest_first d.timestamp d.id e.timestamp e.id

  unfoldable pub list_fault_events : Option String → ℕ → Run (State env) (List (FaultEvent F))
  list_fault_events sensor_id limit =
      find_limited env (fault_events env) (λ d. field_is sensor_id d.sensor_id) event_order limit

  unfoldable pub get_latest_fault_event : String → Run (State env) (FaultEvent F)
  get_latest_fault_event sensor_id = do
    ensure_exists env (sensors env) (λ d. str_eq d.sensor_id sensor_id)
    doc ← find_newest env (fault_events env) (λ d. str_eq d.sensor_id sensor_id) event_order
    lift (or_raise doc not_found)
