-- ===== src/Api/Frame/Accounts.antt =====
-- routes/auth.py: its requests keep what does not look at the accounts.
use trust_aware_self_healing.Shared.{ℕ, String, Option, none, some}
use trust_aware_self_healing.Models.{User, UserRegister}
use trust_aware_self_healing.Security.{IdInfo}
use trust_aware_self_healing.Store.Db.{Env, State, users, password_reset_tokens}
use trust_aware_self_healing.Store.Keeps.{Keeps, IsStable}
use trust_aware_self_healing.Store.Frame.{IsFree, keeps}
use trust_aware_self_healing.Validators.{ensure_unique}
use trust_aware_self_healing.Authentication.Tokens.{create_access_token, decode_access_token}
use trust_aware_self_healing.Authentication.Accounts.{
  signed_in, register, login, find_or_create, google_login, get_current_user,
  get_current_user_dependency,
}
use trust_aware_self_healing.Authentication.Passwords.{issue_token, forgot_password, reset_password}

module _ (env : Env) (P : State env → Type 0) (stable : IsStable env P) where
  signed_in-Keeps : (doc : User) → Keeps P (signed_in env doc)
  unfolding signed_in create_access_token
  signed_in-Keeps doc = search keeps depth 12

  pub login-Keeps : (email password : String) → Keeps P (login env email password)
  unfolding login
  login-Keeps email password = search (keeps, signed_in-Keeps) depth 12

  pub current_user-Keeps :
      (authorization : Option String) → Keeps P (get_current_user_dependency env authorization)
  unfolding get_current_user_dependency get_current_user decode_access_token
  current_user-Keeps authorization = search keeps depth 14

  module _ (user : IsFree env P (users env))
      (token : IsFree env P (password_reset_tokens env)) where
    pub register-Keeps :
        (salt : String) (payload : UserRegister) → Keeps P (register env salt payload)
    unfolding register ensure_unique
    register-Keeps salt payload = search (keeps, signed_in-Keeps) depth 14

    find_or_create-Keeps :
        (idinfo : IdInfo) (email : String) (now : ℕ) (o : Option User)
        → Keeps P (find_or_create env idinfo email now o)
    unfolding find_or_create
    find_or_create-Keeps idinfo email now none = search keeps depth 12
    find_or_create-Keeps idinfo email now (some doc) = search keeps

    pub google_login-Keeps : (id_token : String) → Keeps P (google_login env id_token)
    unfolding google_login
    google_login-Keeps id_token = search (keeps, signed_in-Keeps, find_or_create-Keeps) depth 16

    issue_token-Keeps : (raw : String) (o : Option User) → Keeps P (issue_token env raw o)
    unfolding issue_token
    issue_token-Keeps raw none = search keeps
    issue_token-Keeps raw (some doc) = search keeps depth 12

    pub forgot_password-Keeps : (raw email : String) → Keeps P (forgot_password env raw email)
    unfolding forgot_password
    forgot_password-Keeps raw email = search (keeps, issue_token-Keeps) depth 12

    pub reset_password-Keeps :
        (salt raw new_password : String) → Keeps P (reset_password env salt raw new_password)
    unfolding reset_password
    reset_password-Keeps salt raw new_password = search keeps depth 16
