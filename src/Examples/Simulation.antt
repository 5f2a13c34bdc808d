-- ===== src/Examples/Simulation.antt =====
-- The simulator on the small database.
use trust_aware_self_healing.Shared.{true, ◌≡◌, some, [], arith}
use trust_aware_self_healing.Shared.Int.{ℤ, pos}
use trust_aware_self_healing.Models.{ActuatorMode}
use trust_aware_self_healing.Simulator.{World, Roll, spike, run}
use trust_aware_self_healing.Simulator.History.{History, IsSimulated, run-History}
use trust_aware_self_healing.Simulator.Loop.{cycles, finished, run-cycles}
use trust_aware_self_healing.Examples.Database.{env, database}

abbrev pub world : World env
world = record { backend = database ActuatorMode.auto []; last_values = []; rolled = 0 }

-- Every draw is the same: the middle of the range, and a spike in half of the readings or none.
abbrev pub roll : Roll ℤ
roll = record {
  gauss = λ mid deviation. mid;
  random = pos 0;
  fault = spike;
  up = true;
  uniform = λ low high. low;
}

abbrev pub half : ℤ
half = env.floats.literal 5 1

run-History_example :
    History env
      (IsSimulated env)
      5000000
      world.backend
      (run env half (λ n. roll) 5000000 (some 2) 10 world).1.backend
run-History_example = run-History env half (λ n. roll) 5000000 (some 2) 10 world

run-cycles_example :
    run env half (λ n. roll) 5000000 (some 2) 3 world
    ≡ finished env half (λ n. roll) 5000000 (cycles env half (λ n. roll) 5000000 2) world
run-cycles_example = run-cycles env half (λ n. roll) 5000000 2 3 world (omega arith)
