-- ===== src/Simulator/Ticks.antt =====
-- simulator/simulator.py: one cycle, and the loop of cycles.
use trust_aware_self_healing.Shared.{
  ℕ, zero, suc, ◌+◌, Bool, true, ◌&&◌, Option, none, some, List, [], ◌∷◌, String, leb as leb_ℕ,
  ltb as ltb_ℕ, if◌then◌else◌,
}
use trust_aware_self_healing.Floats.{of_ℕ, ltb}
use trust_aware_self_healing.Models.{Sensor, Reading}
use trust_aware_self_healing.Store.Run.{Run, Result, ok, err, pure, lift, http_error, ◌>>=◌, ◌>>◌}
use trust_aware_self_healing.Store.Db.{Env, State}
use trust_aware_self_healing.Api.{Request, Response, Body, serve}
use trust_aware_self_healing.Simulator.Values.{
  Roll, SimulatedFault, generate_plausible_value, inject_fault,
}

-- The backend, and the simulator's own state: its last values, and how many readings it has rolled for.
pub record World (env : Env) : Type 0 where
  pub backend : State env
  pub last_values : List (String × env.floats.F)
  pub rolled : ℕ

pub record Posted (F : Type 0) : Type 0 where
  pub sensor_id : String
  pub value : F
  pub injected_fault : Option SimulatedFault
  pub reading : Reading F

-- `iterations is None or count < iterations`
abbrev pub goes_on : Option ℕ → ℕ → Bool
goes_on none count = true
goes_on (some iterations) count = ltb_ℕ count iterations

module _ (env : Env) where
  open env use {floats.{F}}

  -- A request through the client.
  unfoldable pub call : Request F → Run (World env) (Response F)
  call request w =
      let (response, s') = serve env request w.backend in (ok response, record w { backend = s' })

  -- `raise_for_status`, then `json()`, where the body is of the expected model.
  abbrev pub sensors_in : Response F → Result (List (Sensor F))
  sensors_in response = if leb_ℕ 400 response.status then err http_error else elim response.body [
    | some (Body.sensors ds) ↦ ok ds
    | some _ ↦ err http_error
    | none ↦ err http_error
  ]

  abbrev pub reading_in : Response F → Result (Reading F)
  reading_in response = if leb_ℕ 400 response.status then err http_error else elim response.body [
    | some (Body.one_reading d) ↦ ok d
    | some _ ↦ err http_error
    | none ↦ err http_error
  ]

  unfoldable pub fetch_enabled_sensors : Run (World env) (List (Sensor F))
  fetch_enabled_sensors = do
    response ← call (Request.list_sensors none (some true))
    lift (sensors_in response)

  -- The value of a sensor, and the fault in it; `rolls n` are the draws for the n-th reading.
  abbrev pub chosen : F → Roll F → Sensor F → List (String × F) → F × Option SimulatedFault
  chosen fault_rate roll d last_values =
      let base_value = generate_plausible_value env.floats roll d in
      let (value, fault) = inject_fault env.floats roll d base_value last_values in
      if ltb env.floats (of_ℕ env.floats 0) fault_rate && ltb env.floats roll.random fault_rate
      then (value, some fault)
      else (base_value, none)

  -- The draw, and the new last value.
  unfoldable pub choose : F → (ℕ → Roll F) → Sensor F → Run (World env) (F × Option SimulatedFault)
  choose fault_rate rolls d w =
      let (value, fault) = chosen fault_rate (rolls w.rolled) d w.last_values in
      (
        ok (value, fault),
        record w { last_values = (d.sensor_id, value) ∷ w.last_values; rolled = suc w.rolled },
      )

  unfoldable pub post : String → F → Run (World env) (Reading F)
  post sensor_id value = do
    response ←
        call (
          Request.create_reading
            (record { sensor_id = sensor_id; value = value; timestamp = none }))
    lift (reading_in response)

  unfoldable pub post_one : F → (ℕ → Roll F) → Sensor F → Run (World env) (Posted F)
  unfolding choose post
  post_one fault_rate rolls d = do
    picked ← choose fault_rate rolls d
    reading ← post d.sensor_id picked.0
    pure (record {
      sensor_id = d.sensor_id;
      value = picked.0;
      injected_fault = picked.1;
      reading = reading;
    })

  unfoldable pub post_all : F → (ℕ → Roll F) → List (Sensor F) → Run (World env) (List (Posted F))
  post_all fault_rate rolls [] = pure []
  post_all fault_rate rolls (d ∷ ds) = do
    posted ← post_one fault_rate rolls d
    rest ← post_all fault_rate rolls ds
    pure (posted ∷ rest)

  unfoldable pub tick : F → (ℕ → Roll F) → Run (World env) (List (Posted F))
  tick fault_rate rolls = do sensors ← fetch_enabled_sensors; post_all fault_rate rolls sensors

  -- `asyncio.sleep`, in microseconds.
  unfoldable pub sleep : ℕ → Run (World env) (Unit {0})
  unfolding pure
  sleep interval w =
      pure tt (record w { backend = record w.backend { clock = w.backend.clock + interval } })

  unfoldable pub sleep_between : ℕ → Option ℕ → ℕ → Run (World env) (Unit {0})
  unfolding sleep
  sleep_between interval iterations count =
      if goes_on iterations count then sleep interval else pure tt

  -- The loop of `run` on fuel: none where the fuel ends before the loop does.
  unfoldable pub run_loop :
      F → (ℕ → Roll F) → ℕ → Option ℕ → ℕ → ℕ → Run (World env) (Option (Unit {0}))
  run_loop fault_rate rolls interval iterations zero count = pure none
  run_loop fault_rate rolls interval iterations (suc fuel) count =
      let next = (do
        tick fault_rate rolls
        sleep_between interval iterations (suc count)
        run_loop fault_rate rolls interval iterations fuel (suc count)) in
      if goes_on iterations count then next else pure (some tt)

  unfoldable pub run : F → (ℕ → Roll F) → ℕ → Option ℕ → ℕ → Run (World env) (Option (Unit {0}))
  run fault_rate rolls interval iterations fuel =
      run_loop fault_rate rolls interval iterations fuel 0
