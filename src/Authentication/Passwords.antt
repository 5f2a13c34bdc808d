-- ===== src/Authentication/Passwords.antt =====
-- services/auth_service.py: the reset of a forgotten password.
use trust_aware_self_healing.Shared.{
  ℕ, ◌+◌, ◌==◌, Bool, true, false, ◌||◌, Option, none, some, String, str_eq, ltb, if◌then◌else◌,
}
use trust_aware_self_healing.Models.{User, ResetToken}
use trust_aware_self_healing.Store.Run.{Run, Result, ok, err, pure, lift, bad_request, ◌>>=◌, ◌>>◌}
use trust_aware_self_healing.Store.Db.{Env, State, users, password_reset_tokens}
use trust_aware_self_healing.Store.Driver.{now_utc, find_one, insert_unique, update_one}
use trust_aware_self_healing.Authentication.Tokens.{hash_password, minutes}
use trust_aware_self_healing.Authentication.Accounts.{has_email}

abbrev pub reset_token_ttl_minutes : ℕ
reset_token_ttl_minutes = 30

abbrev pub has_hash : String → ResetToken → Bool
has_hash token_hash d = str_eq d.token_hash token_hash

abbrev pub new_token : ℕ → String → ℕ → ℕ → ResetToken
new_token user_id token_hash now i = record {
  id = i;
  user_id = user_id;
  token_hash = token_hash;
  expires_at = now + minutes reset_token_ttl_minutes;
  used = false;
  created_at = now;
}

-- 400 where the token is unknown, used, or expired.
abbrev pub usable : ℕ → Option ResetToken → Result ResetToken
usable now none = err bad_request
usable now (some r) = if r.used || ltb r.expires_at now then err bad_request else ok r

abbrev pub with_password : String → ℕ → User → User
with_password password_hash now d = record d {
  password_hash = some password_hash;
  updated_at = now;
}

abbrev pub spent : ResetToken → ResetToken
spent d = record d { used = true }

module _ (env : Env) where
  open env use {security.{lower, sha256}}

  unfoldable pub hash_token : String → String
  hash_token raw_token = sha256 raw_token

  -- The rest of `forgot_password`, on what was found; `raw_token` is what `secrets` draws.
  unfoldable pub issue_token : String → Option User → Run (State env) (Option String)
  unfolding hash_token
  issue_token raw_token none = pure none
  issue_token raw_token (some doc) = do
    now ← now_utc env
    insert_unique env (password_reset_tokens env) (has_hash (hash_token raw_token))
        (new_token doc.id (hash_token raw_token) now)
    pure (some raw_token)

  unfoldable pub forgot_password : String → String → Run (State env) (Option String)
  unfolding issue_token
  forgot_password raw_token email = do
    found ← find_one env (users env) (has_email (lower email))
    issue_token raw_token found

  unfoldable pub reset_password : String → String → String → Run (State env) (Unit {0})
  unfolding hash_token
  reset_password salt raw_token new_password = do
    found ← find_one env (password_reset_tokens env) (has_hash (hash_token raw_token))
    now ← now_utc env
    token ← lift (usable now found)
    password_hash ← lift (hash_password env salt new_password)
    update_one env (users env) (λ d. d.id == token.user_id) (with_password password_hash now)
    update_one env (password_reset_tokens env) (λ d. d.id == token.id) spent
