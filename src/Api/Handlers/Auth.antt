-- ===== src/Api/Handlers/Auth.antt =====
-- routes/auth.py.
use trust_aware_self_healing.Shared.{String, Option}
use trust_aware_self_healing.Models.{UserResponse, TokenResponse}
use trust_aware_self_healing.Store.Run.{Run}
use trust_aware_self_healing.Store.Db.{Env, State}
use trust_aware_self_healing.Authentication
use trust_aware_self_healing.Api.Bodies.{Body, map_result}
use trust_aware_self_healing.Models.{UserRegister}

module _ (env : Env) where
  open env use {floats.{F}, security.{read_id, jwt_expire_minutes}}

  -- `{"access_token": token, "expires_in_minutes": ..., "user": user}`
  abbrev pub token_response : UserResponse × String → TokenResponse
  token_response q = record {
    access_token = q.1;
    expires_in_minutes = jwt_expire_minutes;
    user = q.0;
  }

  abbrev pub register : String → UserRegister → Run (State env) (Body F)
  register salt payload =
      map_result (λ q. Body.signed_in (token_response q)) (Authentication.register env salt payload)

  abbrev pub login : String → String → Run (State env) (Body F)
  login email password =
      map_result (λ q. Body.signed_in (token_response q)) (Authentication.login env email password)

  abbrev pub google_login : String → Run (State env) (Body F)
  google_login id_token =
      map_result (λ q. Body.signed_in (token_response q)) (Authentication.google_login env id_token)

  abbrev pub me : Option String → Run (State env) (Body F)
  me authorization =
      map_result Body.current_user (Authentication.get_current_user_dependency env authorization)

  abbrev pub forgot_password : String → String → Run (State env) (Body F)
  forgot_password raw_token email =
      map_result Body.reset_token (Authentication.forgot_password env raw_token email)

  abbrev pub reset_password : String → String → String → Run (State env) (Body F)
  reset_password salt raw_token new_password =
      map_result (λ u. Body.done) (Authentication.reset_password env salt raw_token new_password)
