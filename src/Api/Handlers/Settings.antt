-- ===== src/Api/Handlers/Settings.antt =====
-- routes/settings.py.
use trust_aware_self_healing.Store.Run.{Run}
use trust_aware_self_healing.Store.Db.{Env, State}
use trust_aware_self_healing.SettingsService
use trust_aware_self_healing.Api.Bodies.{Body, map_result}
use trust_aware_self_healing.Models.{SettingsUpdate}

module _ (env : Env) where
  open env use {floats.{F}, security.{read_id, jwt_expire_minutes}}

  abbrev pub get_settings : Run (State env) (Body F)
  get_settings = map_result Body.settings_now (SettingsService.get_settings env)

  abbrev pub update_settings : SettingsUpdate F → Run (State env) (Body F)
  update_settings payload =
      map_result Body.settings_after (SettingsService.update_settings env payload)
