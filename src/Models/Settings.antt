-- ===== src/Models/Settings.antt =====
-- models/settings.py: the one settings document, its defaults, and a partial update of it.
use trust_aware_self_healing.Shared.{ℕ, String, Option}
use trust_aware_self_healing.Floats.{Floats, of_ℕ}

pub record SystemSettings (F : Type 0) : Type 0 where
  pub id : String
  pub fault_penalty : F
  pub recovery_gain : F
  pub faulty_threshold : F
  pub healthy_threshold : F
  pub trust_max : F
  pub trust_min : F
  pub updated_at : ℕ

pub record SettingsUpdate (F : Type 0) : Type 0 where
  pub fault_penalty : Option F
  pub recovery_gain : Option F
  pub faulty_threshold : Option F
  pub healthy_threshold : Option F
  pub trust_max : Option F
  pub trust_min : Option F

-- `DEFAULT_SETTINGS`, with the time of its creation.
abbrev pub default_settings : (fl : Floats) → ℕ → SystemSettings fl.F
default_settings fl now = record {
  id = "system";
  fault_penalty = of_ℕ fl 20;
  recovery_gain = of_ℕ fl 5;
  faulty_threshold = of_ℕ fl 50;
  healthy_threshold = of_ℕ fl 90;
  trust_max = of_ℕ fl 100;
  trust_min = of_ℕ fl 0;
  updated_at = now;
}
