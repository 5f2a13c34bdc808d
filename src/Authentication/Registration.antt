-- ===== src/Authentication/Registration.antt =====
-- services/auth_service.py: an account from its registration to a login, and to a request with its
-- token.
use trust_aware_self_healing.Shared.{
  ℕ, suc, ◌+◌, ◌≤◌, ◌≡◌, refl, fun_ext, Bool, true, false, ◌||◌, ◌==◌, Option, none, some, String,
  str_eq, arith, [], if◌then◌else◌,
}
use trust_aware_self_healing.Mongo.{IsMongo}
use trust_aware_self_healing.Security.{IsSecurity, bearer}
use trust_aware_self_healing.Models.{User, UserRegister, UserResponse}
use trust_aware_self_healing.Store.Run.{Error, Result, ok, err, lift, unauthorized, ◌>>=◌}
use trust_aware_self_healing.Store.Db.{Env, State}
use trust_aware_self_healing.Store.Driver.{now_utc, find_one, insert_unique}
use trust_aware_self_healing.Store.Quiet.{driver-IsQuiet}
use trust_aware_self_healing.Validators.{ensure_unique}
use trust_aware_self_healing.Authentication.Tokens.{
  minutes, hash_password, verify_password, create_access_token, decode_access_token, starts_with,
  after_blank,
}
use trust_aware_self_healing.Authentication.Accounts.{
  has_email, same_text, clashes, new_user, matching_account, user_to_response, signed_in, register,
  login, get_current_user, get_current_user_dependency,
}

module _ (env : Env) (laws : IsMongo env.mongo) where
  open env use {security.{lower, hashpw, encode, show_id, jwt_expire_minutes}}

  -- The expiry of a token that is issued at a time, and the answer with that token.
  abbrev pub expiry : ℕ → ℕ
  expiry now = now + minutes jwt_expire_minutes

  abbrev pub session : User → ℕ → UserResponse × String
  session doc now = (user_to_response env doc, encode (show_id doc.id) (expiry now))

  -- The account that a registration stores.
  abbrev pub account : UserRegister → String → State env → User
  account payload h s = new_user payload (lower payload.email) h s.clock s.next_id

  abbrev pub at_time : ℕ → State env → State env
  at_time now s = record s { clock = now }

  abbrev pub registered : UserRegister → String → State env → State env
  registered payload h s = record s {
    users = env.mongo.insert_one (account payload h s) s.users;
    next_id = suc s.next_id;
  }

  no_other_clash : (email : String) → clashes email none ≡ has_email email
  no_other_clash email = fun_ext λ d. no_sub d.google_sub (str_eq d.email email)
    where
      no_sub : (sub : Option String) (b : Bool) → (b || same_text sub none) ≡ b
      no_sub none b = ground arith
      no_sub (some x) b = ground arith

  pub register-stores :
      (salt : String) (payload : UserRegister) (s : State env) (h : String)
      → s.outages ≡ []
      → env.mongo.find_one (has_email (lower payload.email)) s.users ≡ none
      → hashpw salt payload.password ≡ some h
      → register env salt payload s
        ≡ (ok (session (account payload h s) s.clock), registered payload h s)
  unfolding register ensure_unique find_one insert_unique now_utc hash_password signed_in
      create_access_token ◌>>=◌
  register-stores salt payload s h quiet free hashed =
      rw
        (
          driver-IsQuiet env _ s quiet,
          free,
          hashed,
          no_other_clash (lower payload.email),
          driver-IsQuiet env _ s quiet,
          free,
        )
        refl

  -- The answer of the three ways in, on the account that they arrive at.
  abbrev pub session_of : Result User → ℕ → Result (UserResponse × String)
  session_of (ok doc) now = ok (session doc now)
  session_of (err e) now = err e

  session_of-if :
      (b : Bool) (doc : User) (e : Error) (now : ℕ)
      → session_of (if b then ok doc else err e) now ≡ (if b then ok (session doc now) else err e)
  session_of-if true doc e now = refl
  session_of-if false doc e now = refl

  pub login-answers :
      (email password : String) (s : State env)
      → s.outages ≡ []
      → login env email password s ≡ (
        session_of
            (matching_account env password (env.mongo.find_one (has_email (lower email)) s.users))
            s.clock,
        s,
      )
  unfolding login find_one now_utc signed_in create_access_token ◌>>=◌
  login-answers email password s quiet = rw (driver-IsQuiet env _ s quiet) (
      finish (matching_account env password (env.mongo.find_one (has_email (lower email)) s.users)))
    where
      finish : (r : Result User) → (lift r >>= signed_in env) s ≡ (session_of r s.clock, s)
      finish (ok doc) = refl
      finish (err e) = refl

  -- A login to a stored account that has a local password.
  pub login_with_password :
      (email password h : String) (doc : User) (s : State env)
      → s.outages ≡ []
      → env.mongo.find_one (has_email (lower email)) s.users ≡ some doc
      → doc.password_hash ≡ some h
      → (login env email password s).0
        ≡ (if verify_password env password h then ok (session doc s.clock) else err unauthorized)
  unfolding user_to_response
  login_with_password email password h doc s quiet found local =
      rw (login-answers email password s quiet, found, local)
        (session_of-if (verify_password env password h) doc unauthorized s.clock)

  module _ (secure : IsSecurity env.security) where
    pub verify-hash :
        (salt password h : String)
        → hashpw salt password ≡ some h
        → verify_password env password h ≡ true
    unfolding verify_password
    verify-hash salt password h hashed = rw (secure.checkpw-hashpw salt password h hashed) refl

    -- With a driver and libraries that meet their laws, while no driver call fails: where no account
    -- has the e-mail in lower case or the id that comes next, and bcrypt hashes the password, a request
    -- whose header carries the token of the registration is answered the account until the token
    -- expires, and 401 from one second after that.
    pub token_of_registration :
        (salt : String) (payload : UserRegister) (s : State env) (h : String)
        → s.outages ≡ []
        → env.mongo.find_one (has_email (lower payload.email)) s.users ≡ none
        → env.mongo.find_one (λ d. d.id == s.next_id) s.users ≡ none
        → hashpw salt payload.password ≡ some h
        → (now : ℕ)
        → let after = (register env salt payload s).1 in
          let doc = account payload h s in
          let header = some (bearer (session doc s.clock).1) in
          let answer = (get_current_user_dependency env header (at_time now after)).0 in
          (now ≤ expiry s.clock → answer ≡ ok (user_to_response env doc))
          × (expiry s.clock + 1000000 ≤ now → answer ≡ err unauthorized)
    unfolding get_current_user_dependency get_current_user decode_access_token starts_with
        after_blank find_one now_utc ◌>>=◌
    token_of_registration salt payload s h quiet free fresh hashed now =
        let stored = register-stores salt payload s h quiet free hashed in
        let doc = account payload h s in
        let later = at_time now (registered payload h s) in
        let found =
          laws.find_one-insert_new (λ d. d.id == s.next_id) doc s.users (same_id s.next_id) fresh in
        let subject = show_id s.next_id in
        (
          λ early.
              rw
                (
                  stored,
                  secure.lower_bearer (encode subject (expiry s.clock)),
                  secure.strip-encode subject (expiry s.clock),
                  secure.decode-encode subject (expiry s.clock) now early,
                  secure.read_id-show_id s.next_id,
                  driver-IsQuiet env _ later quiet,
                  found,
                )
                refl,
          λ late.
              rw
                (
                  stored,
                  secure.lower_bearer (encode subject (expiry s.clock)),
                  secure.strip-encode subject (expiry s.clock),
                  secure.decode_expired subject (expiry s.clock) now late,
                )
                refl,
        )
      where
        same_id : (i : ℕ) → (i == i) ≡ true
        same_id i = ground arith
