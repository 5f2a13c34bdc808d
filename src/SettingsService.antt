-- ===== src/SettingsService.antt =====
-- services/settings_service.py: the one settings document, made with its defaults on first use.
pub mod Laws
use trust_aware_self_healing.Shared.{
  ℕ, Bool, true, false, ◌||◌, Option, none, some, String, str_eq, or_else, is_some, if◌then◌else◌,
}
use trust_aware_self_healing.Floats.{Floats}
use trust_aware_self_healing.Models.{SystemSettings, SettingsUpdate, default_settings}
use trust_aware_self_healing.Store.Run.{Run, pure, lift, or_raise, value_error, ◌>>=◌, ◌>>◌}
use trust_aware_self_healing.Store.Db.{Env, State, system_settings}
use trust_aware_self_healing.Store.Driver.{now_utc, find_one, insert_one, update_one}

abbrev pub is_system : {F : Type 0} → SystemSettings F → Bool
is_system d = str_eq d.id "system"

-- `{k: v for k, v in updates.items() if v is not None}` is not empty.
abbrev pub has_changes : {F : Type 0} → SettingsUpdate F → Bool
has_changes u =
    is_some u.fault_penalty
    || is_some u.recovery_gain
    || is_some u.faulty_threshold
    || is_some u.healthy_threshold
    || is_some u.trust_max
    || is_some u.trust_min

-- `$set` of the fields that are given, and of the time.
abbrev pub apply_changes : {F : Type 0} → SettingsUpdate F → ℕ → SystemSettings F → SystemSettings F
apply_changes u now d = record d {
  fault_penalty = or_else u.fault_penalty d.fault_penalty;
  recovery_gain = or_else u.recovery_gain d.recovery_gain;
  faulty_threshold = or_else u.faulty_threshold d.faulty_threshold;
  healthy_threshold = or_else u.healthy_threshold d.healthy_threshold;
  trust_max = or_else u.trust_max d.trust_max;
  trust_min = or_else u.trust_min d.trust_min;
  updated_at = now;
}

module _ (env : Env) where
  open env use {floats.{F}}

  unfoldable pub make_default : Option (SystemSettings F) → Run (State env) (SystemSettings F)
  make_default (some doc) = pure doc
  make_default none = do
    now ← now_utc env
    let doc = default_settings env.floats now
    insert_one env (system_settings env) (λ _. doc)
    pure doc

  unfoldable pub get_settings : Run (State env) (SystemSettings F)
  unfolding make_default
  get_settings = do doc ← find_one env (system_settings env) is_system; make_default doc

  unfoldable pub write_changes : SettingsUpdate F → Run (State env) (Unit {0})
  write_changes u = do
    now ← now_utc env
    update_one env (system_settings env) is_system (apply_changes u now)

  unfoldable pub update_settings : SettingsUpdate F → Run (State env) (Option (SystemSettings F))
  unfolding write_changes get_settings
  update_settings u = do
    get_settings
    (if has_changes u then write_changes u else pure tt)
    find_one env (system_settings env) is_system
