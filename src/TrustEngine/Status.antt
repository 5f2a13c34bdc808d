-- ===== src/TrustEngine/Status.antt =====
-- services/trust_engine.py: the status as a function of the score, and the two counters.
use trust_aware_self_healing.Shared.{
  ℕ, suc, ◌≤◌, ◌≡◌, refl, Bool, true, false, List, [], ◌∷◌, arith,
}
use trust_aware_self_healing.Floats.{Floats, IsOrdered}
use trust_aware_self_healing.Models.{SensorStatus, healthy, faulty, recovering, offline}
use trust_aware_self_healing.TrustEngine.Scoring.{
  TrustParameters, TrustSnapshot, derive_status, score, score_all,
}

-- How good a status is: FAULTY, RECOVERING, HEALTHY.
abbrev pub rank : SensorStatus → ℕ
rank offline = 0
rank faulty = 1
rank recovering = 2
rank healthy = 3

-- How many predictions at the end of the list are `b`, with `n` of them before its start.
abbrev pub run_length : Bool → ℕ → List Bool → ℕ
run_length b n [] = n
run_length true n (true ∷ rest) = run_length true (suc n) rest
run_length true n (false ∷ rest) = run_length true 0 rest
run_length false n (false ∷ rest) = run_length false (suc n) rest
run_length false n (true ∷ rest) = run_length false 0 rest

module _ (fl : Floats) where
  open fl use {F, leb}

  -- With ordered numbers, a higher score never has a worse status, for any two thresholds, in any order
  -- (FAULTY is the worst, then RECOVERING, then HEALTHY).
  pub derive_status_mono :
      IsOrdered fl
      → (t u low high : F) → leb t u ≡ true
      → rank (derive_status fl t low high) ≤ rank (derive_status fl u low high)
  unfolding derive_status
  derive_status_mono laws t u low high h =
      ground (arith, laws.le_trans low t u, laws.le_trans high t u)

  -- After any run of predictions the two counters are the lengths of the runs of faults and of healthy
  -- readings that the predictions end in.
  pub score_all-run_length :
      (p : TrustParameters F) (predictions : List Bool) (before : TrustSnapshot F)
      → let after = score_all fl p predictions before in
        (after.consecutive_faults ≡ run_length true before.consecutive_faults predictions)
        × (after.consecutive_healthy ≡ run_length false before.consecutive_healthy predictions)
  unfolding score_all score
  score_all-run_length p [] before = (refl, refl)
  score_all-run_length p (true ∷ rest) before = score_all-run_length p rest (score fl p true before)
  score_all-run_length p (false ∷ rest) before =
      score_all-run_length p rest (score fl p false before)
