-- ===== src/Authentication/Reset.antt =====
-- services/auth_service.py: a reset token from its issue to the login with the new password.
use trust_aware_self_healing.Shared.{
  ℕ, suc, ◌+◌, ◌<◌, ◌≡◌, refl, ap, ◌∙◌, ◌==◌, none, some, String, eq_refl, arith, [],
}
use trust_aware_self_healing.Mongo.{IsMongo}
use trust_aware_self_healing.Models.{User, ResetToken}
use trust_aware_self_healing.Store.Run.{ok, err, bad_request, ◌>>=◌}
use trust_aware_self_healing.Store.Db.{Env, State}
use trust_aware_self_healing.Store.Driver.{now_utc, find_one, insert_unique, update_one}
use trust_aware_self_healing.Store.Quiet.{driver-IsQuiet}
use trust_aware_self_healing.Authentication.Tokens.{minutes, hash_password}
use trust_aware_self_healing.Authentication.Accounts.{has_email}
use trust_aware_self_healing.Authentication.Passwords.{
  reset_token_ttl_minutes, has_hash, new_token, with_password, spent, usable, hash_token,
  issue_token, forgot_password, reset_password,
}
use trust_aware_self_healing.Authentication.Registration.{at_time}

module _ (env : Env) (laws : IsMongo env.mongo) where
  open env use {security.{lower, hashpw, sha256}}

  -- The token that is issued for an account.
  abbrev pub token_for : User → String → State env → ResetToken
  token_for doc raw_token s = new_token doc.id (sha256 raw_token) s.clock s.next_id

  abbrev pub issued : User → String → State env → State env
  issued doc raw_token s = record s {
    password_reset_tokens =
        env.mongo.insert_one (token_for doc raw_token s) s.password_reset_tokens;
    next_id = suc s.next_id;
  }

  pub forgot_password-issues :
      (raw_token email : String) (s : State env) (doc : User)
      → s.outages ≡ []
      → env.mongo.find_one (has_email (lower email)) s.users ≡ some doc
      → env.mongo.find_one (has_hash (sha256 raw_token)) s.password_reset_tokens ≡ none
      → forgot_password env raw_token email s ≡ (ok (some raw_token), issued doc raw_token s)
  unfolding forgot_password issue_token hash_token find_one insert_unique now_utc ◌>>=◌
  forgot_password-issues raw_token email s doc quiet found unused =
      rw (driver-IsQuiet env _ s quiet, found, driver-IsQuiet env _ s quiet, unused) refl

  -- A reset with a usable token writes the new hash and spends the token.
  abbrev pub after_reset : ResetToken → String → State env → State env
  after_reset token h s = record s {
    users = env.mongo.update_one (λ d. d.id == token.user_id) (with_password h s.clock) s.users;
    password_reset_tokens =
        env.mongo.update_one (λ d. d.id == token.id) spent s.password_reset_tokens;
  }

  pub reset_password-writes :
      (salt raw_token new_password h : String) (s : State env) (token : ResetToken)
      → s.outages ≡ []
      → env.mongo.find_one (has_hash (sha256 raw_token)) s.password_reset_tokens ≡ some token
      → usable s.clock (some token) ≡ ok token
      → hashpw salt new_password ≡ some h
      → reset_password env salt raw_token new_password s ≡ (ok tt, after_reset token h s)
  unfolding reset_password hash_token hash_password find_one update_one now_utc ◌>>=◌
  reset_password-writes salt raw_token new_password h s token quiet found good hashed =
      let s1 = record s {
        users = env.mongo.update_one (λ d. d.id == token.user_id) (with_password h s.clock) s.users;
      } in
      rw
        (
          driver-IsQuiet env _ s quiet,
          found,
          good,
          hashed,
          driver-IsQuiet env _ s quiet,
          driver-IsQuiet env _ s1 quiet,
        )
        refl

  -- A token that is not usable is refused, and nothing is written.
  pub reset_password_refused :
      (salt raw_token new_password : String) (s : State env)
      → s.outages ≡ []
      → usable s.clock (env.mongo.find_one (has_hash (sha256 raw_token)) s.password_reset_tokens)
        ≡ err bad_request
      → reset_password env salt raw_token new_password s ≡ (err bad_request, s)
  unfolding reset_password hash_token find_one now_utc ◌>>=◌
  reset_password_refused salt raw_token new_password s quiet bad =
      rw (driver-IsQuiet env _ s quiet, bad) refl

  stale_usable :
      (doc : User) (raw_token : String) (s : State env) (now : ℕ)
      → s.clock + minutes reset_token_ttl_minutes < now
      → usable now (some (token_for doc raw_token s)) ≡ err bad_request
  stale_usable doc raw_token s now h = ground arith

  -- The token is found by its hash, and by its id.
  issued_by_hash :
      (doc : User) (raw_token : String) (s : State env)
      → env.mongo.find_one (has_hash (sha256 raw_token)) s.password_reset_tokens ≡ none
      → env.mongo.find_one
          (has_hash (sha256 raw_token))
          (issued doc raw_token s).password_reset_tokens
        ≡ some (token_for doc raw_token s)
  issued_by_hash doc raw_token s unused =
      laws.find_one-insert_new _ (token_for doc raw_token s) _ (eq_refl (sha256 raw_token)) unused

  -- With a driver that meets its laws, while no driver call fails: where an account is found by an
  -- e-mail and the hash of the new token is not taken, a reset with that token more than 30 minutes
  -- after its issue is answered 400 and changes nothing.
  pub reset_after_expiry :
      (raw_token email salt new_password : String) (s : State env) (doc : User) (now : ℕ)
      → s.outages ≡ []
      → env.mongo.find_one (has_email (lower email)) s.users ≡ some doc
      → env.mongo.find_one (has_hash (sha256 raw_token)) s.password_reset_tokens ≡ none
      → s.clock + minutes reset_token_ttl_minutes < now
      → let sent = at_time env laws now (forgot_password env raw_token email s).1 in
        reset_password env salt raw_token new_password sent ≡ (err bad_request, sent)
  reset_after_expiry raw_token email salt new_password s doc now quiet found unused late =
      let sent = at_time env laws now (issued doc raw_token s) in
      rw (forgot_password-issues raw_token email s doc quiet found unused) (
        reset_password_refused salt raw_token new_password sent quiet (
          ap (usable now) (issued_by_hash doc raw_token s unused)
          ∙ stale_usable doc raw_token s now late))
