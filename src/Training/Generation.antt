-- ===== src/Training/Generation.antt =====
-- ml/generate_training_data.py: labelled readings, made by the simulator through the API.
use Prim.Native.String.{◌++◌ as ◌<>◌}
use trust_aware_self_healing.Shared.{
  ℕ, zero, suc, ◌/◌, ◌%◌, ◌==◌, true, not, ◌&&◌, Option, none, List, [], ◌∷◌, ◌++◌, String, map,
  leb as leb_ℕ, ltb as ltb_ℕ, if◌then◌else◌,
}
use trust_aware_self_healing.Floats.{Floats, of_ℕ}
use trust_aware_self_healing.Models.{
  SensorCreate, SensorType, temperature, humidity, gas, pressure, sensor_type_value,
}
use trust_aware_self_healing.Store.Run.{Run, Result, ok, err, pure, lift, http_error, ◌>>=◌, ◌>>◌}
use trust_aware_self_healing.Store.Db.{Env}
use trust_aware_self_healing.Store.Keeps.{Keeps, Keeps-bind, Keeps-pure, Keeps-lift}
use trust_aware_self_healing.Api.{Request, Response}
use trust_aware_self_healing.System.{Reachable}
use trust_aware_self_healing.Simulator.{World, Roll, Posted, SimulatedFault, call, tick}
use trust_aware_self_healing.Simulator.History.{
  start, From, call-From, tick-From, History-Reachable,
}

-- `xs[i]`, and `last` past the end.
abbrev pub item : {A : Type 0} → A → List A → ℕ → A
item last [] i = last
item last (x ∷ xs) zero = x
item last (x ∷ xs) (suc i) = item last xs i

-- `SENSOR_TYPES[i]`
abbrev pub type_at : ℕ → SensorType
type_at i = item pressure (temperature ∷ humidity ∷ SensorType.light ∷ gas ∷ []) i

abbrev digit : ℕ → String
digit n = item "9" ("0" ∷ "1" ∷ "2" ∷ "3" ∷ "4" ∷ "5" ∷ "6" ∷ "7" ∷ "8" ∷ []) n

-- The decimal digits of n, on fuel for as many digits.
abbrev decimal : ℕ → ℕ → String
decimal zero n = digit (n % 10)
decimal (suc fuel) n =
    let front = decimal fuel (n / 10) in if ltb_ℕ n 10 then digit n else front <> digit (n % 10)

-- `f"{i:02d}"`, for numbers of up to 20 digits
abbrev pub two_digits : ℕ → String
two_digits i = if ltb_ℕ i 10 then "0" <> digit i else decimal 20 i

pub record LabeledRow (F : Type 0) : Type 0 where
  pub id : ℕ
  pub sensor_id : String
  pub value : F
  pub injected_fault : Option SimulatedFault

abbrev pub row_of : {F : Type 0} → Posted F → LabeledRow F
row_of r = record {
  id = r.reading.id;
  sensor_id = r.sensor_id;
  value = r.value;
  injected_fault = r.injected_fault;
}

module _ (fl : Floats) where
  unfoldable pub sensor_payload : ℕ → SensorCreate fl.F
  sensor_payload i =
      let sensor_type = type_at (i % 5) in
      record {
        sensor_id = ("ML_GEN_" <> (sensor_type_value sensor_type <> ("_" <> two_digits i)));
        name = "ML Training Sensor " <> decimal 20 i;
        sensor_type = sensor_type;
        unit = "unit";
        location = "ML Training Rig";
        node_id = none;
        normal_min = of_ℕ fl 10;
        normal_max = of_ℕ fl 50;
        sampling_interval_seconds = 5;
        enabled = true;
      }

module _ (env : Env) where
  open env use {floats.{F}}

  -- 201 and 409 are both welcome.
  abbrev ensured : Response F → Result (Unit {0})
  ensured response =
      if leb_ℕ 400 response.status && not (response.status == 409) then err http_error else ok tt

  -- The sensors i, i + 1, ... up to n of them.
  unfoldable pub ensure_sensors : ℕ → ℕ → Run (World env) (Unit {0})
  unfolding sensor_payload
  ensure_sensors i zero = pure tt
  ensure_sensors i (suc n) = do
    response ← call env (Request.create_sensor (sensor_payload env.floats i))
    lift (ensured response)
    ensure_sensors (suc i) n

  unfoldable pub labelled_ticks : F → (ℕ → Roll F) → ℕ → Run (World env) (List (LabeledRow F))
  labelled_ticks fault_rate rolls zero = pure []
  labelled_ticks fault_rate rolls (suc ticks) = do
    results ← tick env fault_rate rolls
    rows ← labelled_ticks fault_rate rolls ticks
    pure (map row_of results ++ rows)

  unfoldable pub generate : F → (ℕ → Roll F) → ℕ → ℕ → Run (World env) (List (LabeledRow F))
  unfolding ensure_sensors labelled_ticks
  generate fault_rate rolls ticks n_sensors = do
    ensure_sensors 0 n_sensors
    labelled_ticks fault_rate rolls ticks

  ensure_sensors-From :
      (w : World env) (i n : ℕ) → Keeps (From env (λ r. Unit {0}) 0 w.backend) (ensure_sensors i n)
  unfolding ensure_sensors
  ensure_sensors-From w i zero = Keeps-pure _
  ensure_sensors-From w i (suc n) =
      Keeps-bind _ _ (call-From env _ 0 w.backend _ tt)
        λ response. Keeps-bind _ _ (Keeps-lift _) λ u. ensure_sensors-From w (suc i) n

  labelled_ticks-From :
      (w : World env) (fault_rate : F) (rolls : ℕ → Roll F) (ticks : ℕ)
      → Keeps (From env (λ r. Unit {0}) 0 w.backend) (labelled_ticks fault_rate rolls ticks)
  unfolding labelled_ticks
  labelled_ticks-From w fault_rate rolls zero = Keeps-pure _
  labelled_ticks-From w fault_rate rolls (suc ticks) =
      Keeps-bind _ _ (tick-From env _ 0 w.backend tt (λ k x. tt) fault_rate rolls) λ results.
        Keeps-bind _ _ (labelled_ticks-From w fault_rate rolls ticks) λ rows. Keeps-pure _

  -- The generation of training data takes the backend through a history of the system.
  pub generate-Reachable :
      (fault_rate : F) (rolls : ℕ → Roll F) (ticks n_sensors : ℕ) (w : World env)
      → Reachable env w.backend (generate fault_rate rolls ticks n_sensors w).1.backend
  unfolding generate
  generate-Reachable fault_rate rolls ticks n_sensors w =
      History-Reachable env (λ r. Unit {0}) 0 _ _
        ((Keeps-bind _ _ (ensure_sensors-From w 0 n_sensors)
            (λ u. labelled_ticks-From w fault_rate rolls ticks)).at
          w (start w.backend))
