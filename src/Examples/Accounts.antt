-- ===== src/Examples/Accounts.antt =====
-- Authentication on concrete inputs: an account with the e-mail ana@lab.
use trust_aware_self_healing.Shared.{◌+◌, ◌≡◌, refl, false, some, [], String, ◌≤◌}
use trust_aware_self_healing.Mongo.Listed.{listed-IsMongo}
use trust_aware_self_healing.Security.{bearer, IdInfo, claims}
use trust_aware_self_healing.Security.Plain.{plain, plain-IsSecurity, google_claims}
use trust_aware_self_healing.Models.{UserRegister, ActuatorMode}
use trust_aware_self_healing.Store.Run.{ok, err, unauthorized}
use trust_aware_self_healing.Store.Db.{Env, State}
use trust_aware_self_healing.Authentication.{
  register, login, user_to_response, get_current_user_dependency, google_login,
}
use trust_aware_self_healing.Authentication.Registration.{
  expiry, session, account, at_time, registered, token_of_registration,
}
use trust_aware_self_healing.Authentication.Google.{
  google_account, Shows, email_not_verified, google_login-google_login, google_login_refused,
}
use trust_aware_self_healing.Examples.Database.{env, database}

abbrev empty : State env
empty = database ActuatorMode.auto []

abbrev ana : UserRegister
ana = record { full_name = "Ana"; email = "ana@lab"; password = "first pass" }

token_of_registration_example :
    let after = (register env "salt" ana empty).1 in
    let doc = account env listed-IsMongo ana "first pass" empty in
    let header = some (bearer (session env listed-IsMongo doc 1000).1) in
    let answer =
      (get_current_user_dependency env header (at_time env listed-IsMongo 2000 after)).0 in
    (2000 ≤ expiry env listed-IsMongo 1000 → answer ≡ ok (user_to_response env doc))
    × (expiry env listed-IsMongo 1000 + 1000000 ≤ 2000 → answer ≡ err unauthorized)
unfolding plain
token_of_registration_example =
    token_of_registration env listed-IsMongo plain-IsSecurity "salt" ana empty "first pass" refl
      refl refl refl 2000

abbrev with_ana : State env
with_ana = registered env listed-IsMongo ana "first pass" empty

abbrev shows_bo : Shows env listed-IsMongo "bo@lab" (google_claims "bo@lab") "bo@lab"
unfolding plain
shows_bo = record { configured = refl; authentic = refl; verified = refl }

google_login-google_login_example :
    let (r, after) = google_login env "bo@lab" empty in
    let doc = google_account env listed-IsMongo (google_claims "bo@lab") "bo@lab" empty in
    let later = at_time env listed-IsMongo 2000 after in
    (r ≡ ok (session env listed-IsMongo doc 1000))
    × (google_login env "bo@lab" later ≡ (ok (session env listed-IsMongo doc 2000), later))
    × ((password : String) → login env "bo@lab" password later ≡ (err unauthorized, later))
unfolding plain
google_login-google_login_example =
    google_login-google_login env listed-IsMongo "bo@lab" "bo@lab" (google_claims "bo@lab") empty
      2000 refl shows_bo refl refl

-- A Google account whose e-mail is not verified.
abbrev unverified : IdInfo
unverified = record (google_claims "bo@lab") { email_verified = some false }

abbrev doubtful : Env
doubtful = record env { security = record plain { verify_oauth2_token = λ t. claims unverified } }

abbrev doubtful_database : State doubtful
doubtful_database = record {
  sensors = empty.sensors;
  sensor_health = empty.sensor_health;
  sensor_readings = empty.sensor_readings;
  predictions = empty.predictions;
  trusted_readings = empty.trusted_readings;
  fault_events = empty.fault_events;
  actuators = empty.actuators;
  actuator_events = empty.actuator_events;
  automation_rules = empty.automation_rules;
  nodes = empty.nodes;
  node_commands = empty.node_commands;
  system_settings = empty.system_settings;
  users = empty.users;
  password_reset_tokens = empty.password_reset_tokens;
  next_id = empty.next_id;
  clock = empty.clock;
  outages = empty.outages;
  detector = empty.detector;
  regressor = empty.regressor;
  pushes = empty.pushes;
}

google_login_refused_example :
    google_login doubtful "token" doubtful_database ≡ (err unauthorized, doubtful_database)
unfolding plain
google_login_refused_example =
    google_login_refused doubtful listed-IsMongo "token" doubtful_database (claims unverified)
      unauthorized refl (email_not_verified refl refl)
