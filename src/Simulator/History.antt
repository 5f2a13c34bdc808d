-- ===== src/Simulator/History.antt =====
-- simulator/simulator.py: what the simulator does to the backend.
use trust_aware_self_healing.Shared.{
  ℕ, zero, suc, ◌+◌, true, Option, none, some, List, [], ◌∷◌, String,
}
use trust_aware_self_healing.Models.{Sensor}
use trust_aware_self_healing.Store.Run.{pure}
use trust_aware_self_healing.Store.Db.{Env, State}
use trust_aware_self_healing.Store.Keeps.{Keeps, Keeps-bind, Keeps-pure, Keeps-lift, Keeps-if}
use trust_aware_self_healing.Api.{Request, serve}
use trust_aware_self_healing.System.{Reachable, request, time, later}
use trust_aware_self_healing.System
use trust_aware_self_healing.Simulator.Values.{Roll}
use trust_aware_self_healing.Simulator.Ticks.{
  World, call, fetch_enabled_sensors, choose, post, post_one, post_all, tick, sleep, sleep_between,
  goes_on, run_loop, run,
}

module _ (env : Env) where
  open env use {floats.{F}}

  -- The backend after some of the requests in `Sent`, and some pauses of one length, and nothing else.
  pub data History (Sent : Request F → Type 0) (interval : ℕ) : State env → State env → Type 0 where
    start : (s : State env) → History Sent interval s s
    sent :
        (s t : State env) (r : Request F)
        → History Sent interval s t
        → Sent r
        → History Sent interval s (serve env r t).1
    pause :
        (s t : State env)
        → History Sent interval s t
        → History Sent interval s (record t { clock = t.clock + interval })

  -- Such a history is one of the whole system.
  pub History-Reachable :
      (Sent : Request F → Type 0) (interval : ℕ) (s t : State env)
      → History Sent interval s t
      → Reachable env s t
  History-Reachable Sent interval _ _ (start s) = System.start s
  History-Reachable Sent interval _ _ (sent s t r h p) =
      later s t _ (History-Reachable Sent interval s t h) (request r t)
  History-Reachable Sent interval _ _ (pause s t h) =
      later s t _ (History-Reachable Sent interval s t h) (time _ t)

  abbrev pub listing : Request F
  listing = Request.list_sensors none (some true)

  abbrev pub posting : String → F → Request F
  posting sensor_id value =
      Request.create_reading (record { sensor_id = sensor_id; value = value; timestamp = none })

  -- GET /sensors?enabled=true, and POST /readings of a value without a timestamp.
  pub data IsSimulated : Request F → Type 0 where
    lists : IsSimulated listing
    posts : (sensor_id : String) (value : F) → IsSimulated (posting sensor_id value)

  module _ (Sent : Request F → Type 0) (interval : ℕ) (s : State env) where
    abbrev pub From : World env → Type 0
    From w = History Sent interval s w.backend

    pub call-From : (r : Request F) → Sent r → Keeps From (call env r)
    unfolding call
    call-From r p = record { at = λ w h. sent s w.backend r h p }

    sleep-From : Keeps From (sleep env interval)
    unfolding sleep pure
    sleep-From = record { at = λ w h. pause s w.backend h }

    module _ (may_list : Sent listing) (may_post : (k : String) (x : F) → Sent (posting k x)) where
      fetch-From : Keeps From (fetch_enabled_sensors env)
      unfolding fetch_enabled_sensors
      fetch-From = Keeps-bind _ _ (call-From listing may_list) λ response. Keeps-lift _

      post_one-From :
          (rate : F) (rolls : ℕ → Roll F) (d : Sensor F) → Keeps From (post_one env rate rolls d)
      unfolding post_one choose post
      post_one-From rate rolls d =
          Keeps-bind _ _ (record { at = λ w h. h })
            λ picked.
              Keeps-bind _ _
                (Keeps-bind _ _ (call-From _ (may_post d.sensor_id picked.0))
                  λ response. Keeps-lift _)
                λ reading. Keeps-pure _

      post_all-From :
          (rate : F) (rolls : ℕ → Roll F) (ds : List (Sensor F))
          → Keeps From (post_all env rate rolls ds)
      unfolding post_all
      post_all-From rate rolls [] = Keeps-pure _
      post_all-From rate rolls (d ∷ ds) =
          Keeps-bind _ _ (post_one-From rate rolls d)
            λ posted. Keeps-bind _ _ (post_all-From rate rolls ds) λ rest. Keeps-pure _

      pub tick-From : (rate : F) (rolls : ℕ → Roll F) → Keeps From (tick env rate rolls)
      unfolding tick
      tick-From rate rolls = Keeps-bind _ _ fetch-From λ sensors. post_all-From rate rolls sensors

      run_loop-From :
          (rate : F) (rolls : ℕ → Roll F) (iterations : Option ℕ) (fuel count : ℕ)
          → Keeps From (run_loop env rate rolls interval iterations fuel count)
      unfolding run_loop sleep_between
      run_loop-From rate rolls iterations zero count = Keeps-pure _
      run_loop-From rate rolls iterations (suc fuel) count =
          Keeps-if (goes_on iterations count) _ _
            (Keeps-bind _ _ (tick-From rate rolls) λ posted.
              Keeps-bind _ _
                (Keeps-if (goes_on iterations (suc count)) _ _ sleep-From (Keeps-pure _))
                λ u. run_loop-From rate rolls iterations fuel (suc count))
            (Keeps-pure _)

  -- However the simulator is run, with whatever draws, and however long, all that it does to the
  -- backend is to send GET /sensors?enabled=true and POST /readings without a timestamp, and to let
  -- pauses of the given length pass.
  pub run-History :
      (rate : F) (rolls : ℕ → Roll F) (interval : ℕ) (iterations : Option ℕ) (fuel : ℕ)
      (w : World env)
      → History IsSimulated interval w.backend
          (run env rate rolls interval iterations fuel w).1.backend
  unfolding run
  run-History rate rolls interval iterations fuel w =
      (run_loop-From IsSimulated interval w.backend lists posts rate rolls iterations fuel 0).at w
        (start w.backend)
