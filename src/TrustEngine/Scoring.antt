-- ===== src/TrustEngine/Scoring.antt =====
-- services/trust_engine.py without the database: the parameters of the trust model, the score after
-- one prediction, and the status that a score stands for.
use trust_aware_self_healing.Shared.{ℕ, suc, Bool, Option, none, some, List, [], ◌∷◌, if◌then◌else◌}
use trust_aware_self_healing.Floats.{Floats, of_ℕ, ltb, max, min}
use trust_aware_self_healing.Models.{
  SensorStatus, healthy, faulty, recovering, Sensor, SensorHealth, SystemSettings,
}
use trust_aware_self_healing.Store.Run.{Result, ok, err}

pub record TrustParameters (F : Type 0) : Type 0 where
  pub fault_penalty : F
  pub recovery_gain : F
  pub trust_min : F
  pub trust_max : F
  pub faulty_threshold : F
  pub healthy_threshold : F

-- What is known of a sensor before a prediction, and after it.
pub record TrustSnapshot (F : Type 0) : Type 0 where
  pub trust : F
  pub consecutive_faults : ℕ
  pub consecutive_healthy : ℕ
  pub status : SensorStatus

module _ (fl : Floats) where
  open fl use {F, add, sub}

  -- FAULT_PENALTY and its kin, used where the settings cannot be read.
  abbrev pub default_parameters : TrustParameters F
  default_parameters = record {
    fault_penalty = of_ℕ fl 20;
    recovery_gain = of_ℕ fl 5;
    trust_min = of_ℕ fl 0;
    trust_max = of_ℕ fl 100;
    faulty_threshold = of_ℕ fl 50;
    healthy_threshold = of_ℕ fl 90;
  }

  abbrev pub trust_parameters : Result (SystemSettings F) → TrustParameters F
  trust_parameters (ok s) = record {
    fault_penalty = s.fault_penalty;
    recovery_gain = s.recovery_gain;
    trust_min = s.trust_min;
    trust_max = s.trust_max;
    faulty_threshold = s.faulty_threshold;
    healthy_threshold = s.healthy_threshold;
  }
  trust_parameters (err e) = default_parameters

  unfoldable pub derive_status : F → F → F → SensorStatus
  derive_status trust_score faulty_threshold healthy_threshold =
      if ltb fl trust_score faulty_threshold
      then faulty
      else if ltb fl trust_score healthy_threshold
      then recovering
      else healthy

  -- The first prediction of a sensor starts from the sensor's own score and status.
  abbrev pub snapshot : Sensor F → Option (SensorHealth F) → TrustSnapshot F
  snapshot sensor none = record {
    trust = sensor.trust_score;
    consecutive_faults = 0;
    consecutive_healthy = 0;
    status = sensor.status;
  }
  snapshot sensor (some h) = record {
    trust = h.trust_score;
    consecutive_faults = h.consecutive_faults;
    consecutive_healthy = h.consecutive_healthy;
    status = h.status;
  }

  unfoldable pub next_trust : TrustParameters F → Bool → F → F
  next_trust p is_fault current_trust =
      if is_fault
      then max fl p.trust_min (sub current_trust p.fault_penalty)
      else min fl p.trust_max (add current_trust p.recovery_gain)

  -- One prediction: the score, the run lengths, and the status that follows from the score.
  unfoldable pub score : TrustParameters F → Bool → TrustSnapshot F → TrustSnapshot F
  unfolding next_trust derive_status
  score p is_fault before =
      let trust = next_trust p is_fault before.trust in
      record {
        trust = trust;
        consecutive_faults = if is_fault then suc before.consecutive_faults else 0;
        consecutive_healthy = if is_fault then 0 else suc before.consecutive_healthy;
        status = derive_status trust p.faulty_threshold p.healthy_threshold;
      }

  -- A run of predictions under one setting of the parameters.
  unfoldable pub score_all : TrustParameters F → List Bool → TrustSnapshot F → TrustSnapshot F
  score_all p [] before = before
  score_all p (is_fault ∷ rest) before = score_all p rest (score p is_fault before)
