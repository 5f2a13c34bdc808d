-- ===== src/Authentication/Google.antt =====
-- services/auth_service.py: sign-in with a Google ID token.
use trust_aware_self_healing.Shared.{
  ℕ, suc, ◌≡◌, refl, false, ◌||◌, not, Option, none, some, or_else, String, str_eq, eq_refl, [],
  arith, if◌then◌else◌,
}
use trust_aware_self_healing.Mongo.{IsMongo}
use trust_aware_self_healing.Security.{IdInfo, Verified, claims, invalid, failed}
use trust_aware_self_healing.Models.{User}
use trust_aware_self_healing.Store.Run.{
  Result, ok, err, Error, driver_error, oauth_error, unauthorized, service_unavailable, ◌>>=◌,
}
use trust_aware_self_healing.Store.Db.{Env, State}
use trust_aware_self_healing.Store.Driver.{now_utc, find_one, insert_unique}
use trust_aware_self_healing.Store.Quiet.{driver-IsQuiet}
use trust_aware_self_healing.Authentication.Tokens.{create_access_token}
use trust_aware_self_healing.Authentication.Accounts.{
  has_email, clashes, google_user, verified_email, accepted, signed_in, find_or_create, login,
  google_login,
}
use trust_aware_self_healing.Authentication.Registration.{session, at_time, login-answers}

module _ (env : Env) (laws : IsMongo env.mongo) where
  open env use {security.{lower, verify_oauth2_token, google_client_id}}

  -- The account that a first sign-in stores.
  abbrev pub google_account : IdInfo → String → State env → User
  google_account idinfo email s = google_user idinfo (lower email) s.clock s.next_id

  -- What a token shows: its claims and their verified e-mail.
  pub record Shows (id_token : String) (idinfo : IdInfo) (email : String) : Type 0 where
    pub configured : str_eq google_client_id "" ≡ false
    pub authentic : accepted (verify_oauth2_token id_token) ≡ ok idinfo
    pub verified : verified_email idinfo ≡ ok email

  -- Where an account has the e-mail, however it came about, the sign-in is to that account.
  pub google_login_known :
      (id_token email : String) (idinfo : IdInfo) (s : State env) (doc : User)
      → s.outages ≡ []
      → Shows id_token idinfo email
      → env.mongo.find_one (has_email (lower email)) s.users ≡ some doc
      → google_login env id_token s ≡ (ok (session env laws doc s.clock), s)
  unfolding google_login find_or_create find_one now_utc signed_in create_access_token ◌>>=◌
  google_login_known id_token email idinfo s doc quiet shows found =
      rw (shows.configured, shows.authentic, shows.verified, driver-IsQuiet env _ s quiet, found)
        refl

  abbrev pub joined : IdInfo → String → State env → State env
  joined idinfo email s = record s {
    users = env.mongo.insert_one (google_account idinfo email s) s.users;
    next_id = suc s.next_id;
  }

  pub google_login_new :
      (id_token email : String) (idinfo : IdInfo) (s : State env)
      → s.outages ≡ []
      → Shows id_token idinfo email
      → env.mongo.find_one (has_email (lower email)) s.users ≡ none
      → env.mongo.find_one (clashes (lower email) (some idinfo.sub)) s.users ≡ none
      → google_login env id_token s
        ≡ (ok (session env laws (google_account idinfo email s) s.clock), joined idinfo email s)
  unfolding google_login find_or_create find_one insert_unique now_utc signed_in create_access_token
      ◌>>=◌
  google_login_new id_token email idinfo s quiet shows free no_clash =
      rw
        (
          shows.configured,
          shows.authentic,
          shows.verified,
          driver-IsQuiet env _ s quiet,
          free,
          driver-IsQuiet env _ s quiet,
          no_clash,
        )
        refl

  -- While no driver call fails: where an account has the subject of a verified Google token and no
  -- account its e-mail, the sign-in raises the duplicate-key error of the driver and changes nothing.
  pub google_login_moved :
      (id_token email : String) (idinfo : IdInfo) (s : State env) (other : User)
      → s.outages ≡ []
      → Shows id_token idinfo email
      → env.mongo.find_one (has_email (lower email)) s.users ≡ none
      → env.mongo.find_one (clashes (lower email) (some idinfo.sub)) s.users ≡ some other
      → google_login env id_token s ≡ (err driver_error, s)
  unfolding google_login find_or_create find_one insert_unique now_utc signed_in create_access_token
      ◌>>=◌
  google_login_moved id_token email idinfo s other quiet shows free clash =
      rw
        (
          shows.configured,
          shows.authentic,
          shows.verified,
          driver-IsQuiet env _ s quiet,
          free,
          driver-IsQuiet env _ s quiet,
          clash,
        )
        refl

  -- With a driver that meets its laws, while no driver call fails: where sign-in is configured, a
  -- Google token is verified and its e-mail too, and neither the e-mail nor the subject has an account,
  -- the sign-in makes an account; signing in again with the token, at any time at which it is still
  -- accepted, is to the same account and changes nothing; and no password is accepted for it.
  pub google_login-google_login :
      (id_token email : String) (idinfo : IdInfo) (s : State env) (now : ℕ)
      → s.outages ≡ []
      → Shows id_token idinfo email
      → env.mongo.find_one (has_email (lower email)) s.users ≡ none
      → env.mongo.find_one (clashes (lower email) (some idinfo.sub)) s.users ≡ none
      → let (r, after) = google_login env id_token s in
        let doc = google_account idinfo email s in
        let later = at_time env laws now after in
        (r ≡ ok (session env laws doc s.clock))
        × (google_login env id_token later ≡ (ok (session env laws doc now), later))
        × ((password : String) → login env email password later ≡ (err unauthorized, later))
  google_login-google_login id_token email idinfo s now quiet shows free no_clash =
      let doc = google_account idinfo email s in
      let later = at_time env laws now (joined idinfo email s) in
      let found : env.mongo.find_one (has_email (lower email)) later.users ≡ some doc =
        laws.find_one-insert_new _ doc s.users (eq_refl (lower email)) free in
      rw (google_login_new id_token email idinfo s quiet shows free no_clash) (
        refl,
        google_login_known id_token email idinfo later doc quiet shows found,
        λ password. rw (login-answers env laws email password later quiet, found) refl,
      )

  -- The ways in which a sign-in is refused: where no client is configured, and else by the token.
  pub data Refusal : Verified → Error → Type 0 where
    unconfigured : {v : Verified} → google_client_id ≡ "" → Refusal v service_unavailable
    not_authentic : str_eq google_client_id "" ≡ false → Refusal invalid unauthorized
    not_checked : str_eq google_client_id "" ≡ false → Refusal failed oauth_error
    no_email :
        {idinfo : IdInfo}
        → str_eq google_client_id "" ≡ false
        → idinfo.email ≡ none
        → Refusal (claims idinfo) unauthorized
    empty_email :
        {idinfo : IdInfo}
        → str_eq google_client_id "" ≡ false
        → idinfo.email ≡ some ""
        → Refusal (claims idinfo) unauthorized
    email_not_said_verified :
        {idinfo : IdInfo}
        → str_eq google_client_id "" ≡ false
        → idinfo.email_verified ≡ none
        → Refusal (claims idinfo) unauthorized
    email_not_verified :
        {idinfo : IdInfo}
        → str_eq google_client_id "" ≡ false
        → idinfo.email_verified ≡ some false
        → Refusal (claims idinfo) unauthorized

  -- An e-mail that the claims do not call verified is not accepted, whatever it is.
  unverified_lem :
      (idinfo : IdInfo)
      → or_else idinfo.email_verified false ≡ false
      → verified_email idinfo ≡ err unauthorized
  unverified_lem idinfo h = by_email idinfo.email
    where
      by_email :
          (o : Option String)
          → elim o as (λ x. Result String) [
            | none ↦ err unauthorized
            | some email ↦
                if str_eq email "" || not (or_else idinfo.email_verified false)
                then err unauthorized
                else ok email
          ]
            ≡ err unauthorized
      by_email none = refl
      by_email (some email) = rw h (ground arith)

  -- A sign-in is answered 503 where no client is configured, and else 401 where Google's check of the
  -- token raises ValueError, that check's own error where it raises another one, and 401 where the
  -- claims have no e-mail, an empty one, or one that they do not call verified. None of these changes
  -- anything, whatever fails in the database.
  pub google_login_refused :
      (id_token : String) (s : State env) (v : Verified) (e : Error)
      → verify_oauth2_token id_token ≡ v
      → Refusal v e
      → google_login env id_token s ≡ (err e, s)
  unfolding google_login ◌>>=◌
  google_login_refused id_token s v e token (unconfigured h) = rw h refl
  google_login_refused id_token s v e token (not_authentic h) = rw (h, token) refl
  google_login_refused id_token s v e token (not_checked h) = rw (h, token) refl
  google_login_refused id_token s v e token (no_email h k) = rw (h, token, k) refl
  google_login_refused id_token s v e token (empty_email h k) = rw (h, token, k) refl
  google_login_refused id_token s v e token (email_not_said_verified {idinfo = i} h k) =
      rw (h, token, unverified_lem i (rw k refl)) refl
  google_login_refused id_token s v e token (email_not_verified {idinfo = i} h k) =
      rw (h, token, unverified_lem i (rw k refl)) refl
