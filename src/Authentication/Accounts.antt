-- ===== src/Authentication/Accounts.antt =====
-- services/auth_service.py: the ways to an account, and the account behind a bearer token.
use trust_aware_self_healing.Shared.{
  ℕ, ◌==◌, Bool, true, false, ◌||◌, not, Option, none, some, String, str_eq, or_else, if◌then◌else◌,
}
use Prim.Native.String.{[], ◌∷◌}
use Prim.Native.Char.{code}
use trust_aware_self_healing.Models.{User, AuthProvider, UserRegister, UserResponse, admin}
use trust_aware_self_healing.Security.{IdInfo, Verified, claims, invalid, failed}
use trust_aware_self_healing.Store.Run.{
  Run, Result, ok, err, pure, lift, or_raise, oauth_error, unauthorized, service_unavailable, ◌>>=◌,
  ◌>>◌,
}
use trust_aware_self_healing.Store.Db.{Env, State, users}
use trust_aware_self_healing.Store.Driver.{now_utc, find_one, insert_unique}
use trust_aware_self_healing.Validators.{ensure_unique}
use trust_aware_self_healing.Authentication.Tokens.{
  hash_password, verify_password, create_access_token, decode_access_token, bearer_token,
}

abbrev pub has_email : String → User → Bool
has_email email d = str_eq d.email email

abbrev pub same_text : Option String → Option String → Bool
same_text (some a) (some b) = str_eq a b
same_text _ _ = false

-- The unique indexes of `users`: on `email`, and on `google_sub` where there is one.
abbrev pub clashes : String → Option String → User → Bool
clashes email google_sub d = str_eq d.email email || same_text d.google_sub google_sub

abbrev pub new_user : UserRegister → String → String → ℕ → ℕ → User
new_user payload email password_hash now i = record {
  id = i;
  full_name = payload.full_name;
  email = email;
  password_hash = some password_hash;
  role = admin;
  email_verified = false;
  auth_provider = AuthProvider.local;
  google_sub = none;
  created_at = now;
  updated_at = now;
}

-- `email.split("@")[0]`
abbrev pub local_part : String → String
local_part [] = ""
local_part (c ∷ s) = let rest = local_part s in if code c == 64 then "" else c ∷ rest

-- `idinfo.get("name") or email.split("@")[0]`
abbrev pub full_name_of : Option String → String → String
full_name_of none email = local_part email
full_name_of (some name) email = if str_eq name "" then local_part email else name

abbrev pub google_user : IdInfo → String → ℕ → ℕ → User
google_user idinfo email now i = record {
  id = i;
  full_name = full_name_of idinfo.name email;
  email = email;
  password_hash = none;
  role = admin;
  email_verified = true;
  auth_provider = AuthProvider.google;
  google_sub = some idinfo.sub;
  created_at = now;
  updated_at = now;
}

-- `not email or not idinfo.get("email_verified", False)` fails.
abbrev pub verified_email : IdInfo → Result String
verified_email idinfo = elim idinfo.email [
  | none ↦ err unauthorized
  | some email ↦
      if str_eq email "" || not (or_else idinfo.email_verified false)
      then err unauthorized
      else ok email
]

-- The claims of a verified token.
abbrev pub accepted : Verified → Result IdInfo
accepted (claims idinfo) = ok idinfo
accepted invalid = err unauthorized
accepted failed = err oauth_error

module _ (env : Env) where
  open env use {security.{lower, show_id, read_id, verify_oauth2_token, google_client_id}}

  unfoldable pub user_to_response : User → UserResponse
  user_to_response doc = record {
    user_id = show_id doc.id;
    full_name = doc.full_name;
    email = doc.email;
    role = doc.role;
    email_verified = doc.email_verified;
    auth_provider = doc.auth_provider;
    created_at = doc.created_at;
    updated_at = doc.updated_at;
  }

  -- What the three ways in end with.
  unfoldable pub signed_in : User → Run (State env) (UserResponse × String)
  unfolding user_to_response
  signed_in doc = do
    token ← create_access_token env (show_id doc.id) none
    pure (user_to_response doc, token)

  unfoldable pub register : String → UserRegister → Run (State env) (UserResponse × String)
  register salt payload = do
    ensure_unique env (users env) (has_email (lower payload.email))
    now ← now_utc env
    password_hash ← lift (hash_password env salt payload.password)
    let doc = new_user payload (lower payload.email) password_hash now
    inserted ← insert_unique env (users env) (clashes (lower payload.email) none) doc
    signed_in (doc inserted)

  -- 401 where there is no account, no local password, or another one.
  abbrev pub matching_account : String → Option User → Result User
  matching_account password none = err unauthorized
  matching_account password (some doc) = elim doc.password_hash [
    | none ↦ err unauthorized
    | some h ↦ if verify_password env password h then ok doc else err unauthorized
  ]

  unfoldable pub login : String → String → Run (State env) (UserResponse × String)
  login email password = do
    found ← find_one env (users env) (has_email (lower email))
    doc ← lift (matching_account password found)
    signed_in doc

  unfoldable pub find_or_create : IdInfo → String → ℕ → Option User → Run (State env) User
  find_or_create idinfo email now (some doc) = pure doc
  find_or_create idinfo email now none = do
    inserted ←
        insert_unique env (users env) (clashes email (some idinfo.sub))
          (google_user idinfo email now)
    pure (google_user idinfo email now inserted)

  unfoldable pub google_login : String → Run (State env) (UserResponse × String)
  google_login id_token_str = do
    lift (if str_eq google_client_id "" then err service_unavailable else ok tt)
    idinfo ← lift (accepted (verify_oauth2_token id_token_str))
    verified ← lift (verified_email idinfo)
    now ← now_utc env
    let email = lower verified
    found ← find_one env (users env) (has_email email)
    doc ← find_or_create idinfo email now found
    signed_in doc

  unfoldable pub get_current_user : String → Run (State env) UserResponse
  get_current_user user_id = do
    oid ← lift (or_raise (read_id user_id) unauthorized)
    found ← find_one env (users env) (λ d. d.id == oid)
    doc ← lift (or_raise found unauthorized)
    pure (user_to_response doc)

  unfoldable pub get_current_user_dependency : Option String → Run (State env) UserResponse
  get_current_user_dependency authorization = do
    token ← lift (bearer_token env authorization)
    decoded ← decode_access_token env token
    user_id ← lift (or_raise decoded unauthorized)
    get_current_user user_id
