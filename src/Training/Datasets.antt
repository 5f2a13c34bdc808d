-- ===== src/Training/Datasets.antt =====
-- ml/train_isolation_forest.py and ml/train_random_forest.py: the stored readings by sensor, and the
-- split of a series in time.
use Prim.Native.Nat.{Ordering}
use Prim.Native.String.{compare}
use trust_aware_self_healing.Shared.{
  ℕ, zero, suc, ◌+◌, ◌*◌, ◌/◌, Bool, true, false, ◌&&◌, ◌||◌, ◌==◌, Option, none, some, List, [],
  ◌∷◌, ◌++◌, String, str_eq, ltb, leb, length, if◌then◌else◌,
}
use trust_aware_self_healing.Models.{Sensor, Reading}
use trust_aware_self_healing.Store.Run.{Run, pure, ◌>>=◌}
use trust_aware_self_healing.Store.Db.{Env, State, sensors, sensor_readings}
use trust_aware_self_healing.Store.Driver.{find}

abbrev pub min_readings_required : ℕ
min_readings_required = 30

-- `max(1, int(n * TRAIN_FRACTION))` with TRAIN_FRACTION = 0.8. The double product of a length (below
-- 2 ^ 50) and 0.8 has the whole part of 4 n / 5.
unfoldable pub split_index : ℕ → ℕ
split_index n = if ltb 1 (n * 4 / 5) then n * 4 / 5 else 1

-- `xs[n:]`
abbrev pub drop {ℓ} : {A : Type ℓ} → ℕ → List A → List A
drop zero xs = xs
drop (suc n) [] = []
drop (suc n) (x ∷ xs) = drop n xs

-- `readings_by_sensor`, in the order of insertion.
abbrev pub Groups : Type 0 → Type 0
Groups F = List (String × List (Reading F))

module _ {F : Type 0} where
  -- `readings_by_sensor[doc["sensor_id"]].append(doc)`
  unfoldable pub add_reading : Reading F → Groups F → Groups F
  add_reading doc [] = (doc.sensor_id, doc ∷ []) ∷ []
  add_reading doc ((k, readings) ∷ rest) =
      let added = add_reading doc rest in
      if str_eq k doc.sensor_id then (k, readings ++ (doc ∷ [])) ∷ rest else (k, readings) ∷ added

  unfoldable pub grouped : Groups F → List (Reading F) → Groups F
  unfolding add_reading
  grouped groups [] = groups
  grouped groups (doc ∷ docs) = grouped (add_reading doc groups) docs

  -- `sensors.get(sensor_id)` on the dictionary of the sensors, where the last of an id counts.
  unfoldable pub sensor_of : List (Sensor F) → String → Option (Sensor F)
  sensor_of [] k = none
  sensor_of (d ∷ ds) k =
      let later = sensor_of ds k in
      elim later [ some e ↦ some e | none ↦ if str_eq d.sensor_id k then some d else none ]

  abbrev pub total_readings : Groups F → ℕ
  total_readings [] = 0
  total_readings ((k, readings) ∷ rest) = length readings + total_readings rest

  -- `[("sensor_id", 1), ("timestamp", 1), ("_id", 1)]`
  abbrev pub chronological : Reading F → Reading F → Bool
  chronological d e = elim (compare d.sensor_id e.sensor_id) [
    | Ordering.lt ↦ true
    | Ordering.eq ↦ ltb d.timestamp e.timestamp || (d.timestamp == e.timestamp && leb d.id e.id)
    | Ordering.gt ↦ false
  ]

module _ (env : Env) where
  open env use {floats.{F}}

  unfoldable pub load_readings_by_sensor : Run (State env) (List (Sensor F) × Groups F)
  unfolding grouped
  load_readings_by_sensor = do
    known ← find env (sensors env) (λ d. true) (λ d e. true)
    docs ← find env (sensor_readings env) (λ d. true) chronological
    pure (known, grouped [] docs)
