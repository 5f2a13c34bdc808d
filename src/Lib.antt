-- ===== src/Lib.antt =====
-- The trust-aware self-healing backend: sensors post readings, an anomaly detector judges each, a
-- trust score of the sensor follows the verdicts, a virtual sensor replaces the values of a sensor
-- that is not trusted, and rules on the trusted values drive actuators on ESP32 nodes. A dashboard
-- signs in with a password or with Google. A simulator posts readings through the API, and scripts
-- train the two models on what is stored.
--
-- One module for each service, with the functions of the source under their own names:
--   Models: models/*.py, the documents and the payloads.
--   Validators, Listing, Updates: utils/validators.py, and the shapes that the services share,
--     which are a sorted and limited listing and a partial update.
--   SettingsService: services/settings_service.py.
--   TrustEngine: services/trust_engine.py; Scoring is its arithmetic, without the database.
--   SelfHealing: services/self_healing.py.
--   Features: ml/feature_engineering.py and ml/virtual_sensor_features.py.
--   ModelCache: `_get_model` and `reload_model` of the two services that follow.
--   FaultDetection: services/fault_detection.py.
--   VirtualSensor: services/virtual_sensor.py.
--   Automation: services/automation.py; Rules is what it does without the database.
--   ActuatorControl: services/actuator.py, the automatic writes to an actuator.
--   ActuatorService: services/actuator_service.py, the manual ones; Overrides sets the two side by
--     side.
--   NodeCommands: services/node_command_service.py and esp32/esp32_client.py.
--   NodeService, SensorService, AutomationRuleService, FaultInjection: services/node_service.py,
--     services/sensor_service.py, services/automation_rule_service.py and
--     services/fault_injection_service.py.
--   ReadingService: services/reading_service.py, which runs the pipeline: `create_reading` stores
--     the reading and then calls, one after the other and each under a `try` of its own, detection,
--     trust, virtual sensor and automation. Its Stages hold what each stage leaves alone.
--   Security: the interface of the libraries that follow, and an instance.
--   Authentication: utils/security.py, services/auth_service.py and `get_current_user_dependency`
--     of routes/auth.py. Tokens, Accounts and Passwords are the operations; Registration, Reset and
--     Google follow an account through several of them.
--   Api: routes/*.py. Requests has a constructor for each endpoint, Schemas the checks of the
--     pydantic models, Handlers the handlers, by router, and Serving one request from end to end:
--     422, the handler, the status of an exception, and 500 for an answer that its response model
--     rejects. Frame shows what each request keeps.
--   System: the histories of the backend, as steps from state to state: a request, the passing of
--     time, new failures, a newly trained model. Scores, Readings and Accounts are their invariants,
--     Health an answer.
--   Simulator: simulator/simulator.py, which calls the API through Serving.
--   Training: ml/train_isolation_forest.py, ml/train_random_forest.py and
--     ml/generate_training_data.py.
--   Importing: the choice of rows in ml/import_intel_lab_dataset.py, and the percentiles of it and
--     of ml/import_anomliot_dataset.py.
--   Examples: a small database, runs on it, and the results applied to concrete values.
--
-- The state (Store.Db) has the collections of database.py, the clock, the two model files with their
-- caches, and the requests sent to nodes. A document has all the fields that the services write, so
-- the defaults of `.get` for a missing field do not occur. A handler is a function from a state to a
-- result and a state (Store.Run): an exception is a value, and what was written before it stays
-- written. `outages` is a list of Booleans that says which of the driver calls to come raise, so a
-- statement for all states is one for all such failures; `[]` says that none fails. Store.Keeps,
-- Store.Ensures and Store.Quiet are the rules by which properties of such computations are proved.
--
-- Parameters, for code of other parties: `Floats` (Python's floats with math and statistics), with
-- its laws in `IsOrdered`, `IsExact` and `IsNearest`; `Mongo` (the driver's calls on one collection),
-- with its laws in `IsMongo`; and `Security` (bcrypt, python-jose, sha256, Google's token check,
-- object ids as text, the strip and lower of str, and the settings of config.py), with its laws in
-- `IsSecurity`. NaN is outside the laws. Floats.Fixed, Mongo.Listed and Security.Plain are instances
-- that meet the laws. The trained models are functions in the state, and sklearn's `fit` is an
-- argument. So is, in Importing, the parsing of a line. What is drawn at random (a salt, a token, the
-- numbers of the simulator) is an argument too. A time is a number of microseconds in UTC, and the
-- clock stands still during one call of a handler. A filter is a predicate and an update a function.
--
-- The loop of the simulator runs on fuel, and any fuel above its number of iterations is enough; the
-- decimal digits in Training.Generation take fuel for 20 of them. The other loops are over lists that
-- the driver returned, or over given numbers of rounds.
--
-- Not modelled: logging; startup, CORS and config.py; the rest of the two scripts that import public
-- data sets; the copies of the authentication code that main.py does not mount; what the training
-- scripts print and the JSON they write beside a model, with the unsupervised and the regression
-- metrics in it; the deletion of expired reset tokens by the database; the unique indexes of sensors,
-- actuators, nodes and rules, whose services look before they insert; a negative limit of GET
-- /sensor-health; that the database keeps milliseconds only; the UTC offset that the timestamp of a
-- payload carries, in which the source takes the hour for a feature (Features.hour_angle takes that
-- of UTC, as in what the database returns); the reply to a direct push; the interleaving of two
-- requests at an `await`, but for that of a manual and an automatic command in
-- ActuatorService.Overrides.
mod Shared
pub mod Floats
pub mod Mongo
pub mod Security
pub mod Models
pub mod Store
pub mod Validators
pub mod Authentication
pub mod SettingsService
mod Listing
pub mod SelfHealing
pub mod TrustEngine
pub mod Features
pub mod ModelCache
pub mod FaultDetection
pub mod VirtualSensor
pub mod NodeCommands
pub mod ActuatorControl
pub mod Automation
pub mod ReadingService
mod Updates
pub mod ActuatorService
pub mod NodeService
pub mod SensorService
pub mod AutomationRuleService
pub mod FaultInjection
pub mod System
pub mod Simulator
pub mod Training
pub mod Importing
pub mod Api
pub mod Examples
