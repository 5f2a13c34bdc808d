-- ===== src/TrustEngine/Recovery.antt =====
-- services/trust_engine.py: the score under the default parameters, in whole trust points.
use trust_aware_self_healing.Shared.{
  ℕ, zero, suc, ◌+◌, ◌-◌, ◌*◌, ◌≤◌, ◌≡◌, ◌∙◌, ◌↔◌, Bool, true, false, List, [], ◌∷◌, arith,
  leb as leb_ℕ, ltb as ltb_ℕ, if◌then◌else◌,
}
use trust_aware_self_healing.Floats.{Floats, IsExact, of_ℕ, max, min}
use trust_aware_self_healing.Models.{SensorStatus, healthy, faulty, recovering}
use trust_aware_self_healing.TrustEngine.Scoring.{
  TrustSnapshot, default_parameters, derive_status, next_trust, score, score_all,
}

-- The score after one prediction, in whole points: 20 down with a floor at 0, 5 up with a ceiling at
-- 100.
abbrev pub whole_next : Bool → ℕ → ℕ
whole_next true n = n - 20
whole_next false n = if leb_ℕ 100 (n + 5) then 100 else n + 5

abbrev pub whole_all : List Bool → ℕ → ℕ
whole_all [] n = n
whole_all (b ∷ bs) n = whole_all bs (whole_next b n)

abbrev pub whole_status : ℕ → SensorStatus
whole_status n = if ltb_ℕ n 50 then faulty else if ltb_ℕ n 90 then recovering else healthy

abbrev pub repeat : ℕ → Bool → List Bool
repeat zero b = []
repeat (suc k) b = b ∷ repeat k b

whole_next-le : (b : Bool) (n : ℕ) → n ≤ 100 → whole_next b n ≤ 100
whole_next-le true n h = omega arith
whole_next-le false n h = ground arith

pub whole_faults : (k n : ℕ) → whole_all (repeat k true) n ≡ n - 20 * k
whole_faults zero n = omega arith
whole_faults (suc k) n = omega (arith, whole_faults k (n - 20))

pub whole_recovery :
    (k n : ℕ)
    → n ≤ 100
    → whole_all (repeat k false) n ≡ (if leb_ℕ 100 (n + 5 * k) then 100 else n + 5 * k)
whole_recovery zero n h = ground arith
whole_recovery (suc k) n h =
    ground (arith, whole_recovery k (whole_next false n) (whole_next-le false n h))

module _ (fl : Floats) (exact : IsExact fl 105) where
  open fl use {F, leb, sub, add}
  open exact use {leb-of_ℕ, add-of_ℕ, sub-of_ℕ, sub-of_ℕ_neg}

  max-of_ℕ_lowered :
      (n : ℕ) → n ≤ 100 → max fl (of_ℕ fl 0) (sub (of_ℕ fl n) (of_ℕ fl 20)) ≡ of_ℕ fl (n - 20)
  max-of_ℕ_lowered n h = ground (arith, sub-of_ℕ n 20, sub-of_ℕ_neg n 20, leb-of_ℕ (n - 20) 0)

  min-of_ℕ_raised :
      (n : ℕ)
      → n ≤ 100
      → min fl (of_ℕ fl 100) (add (of_ℕ fl n) (of_ℕ fl 5)) ≡ of_ℕ fl (whole_next false n)
  min-of_ℕ_raised n h = ground (arith, add-of_ℕ n 5, leb-of_ℕ 100 (n + 5))

  next_trust-of_ℕ :
      (b : Bool) (n : ℕ)
      → n ≤ 100
      → next_trust fl (default_parameters fl) b (of_ℕ fl n) ≡ of_ℕ fl (whole_next b n)
  unfolding next_trust
  next_trust-of_ℕ true n h = max-of_ℕ_lowered n h
  next_trust-of_ℕ false n h = min-of_ℕ_raised n h

  derive_status-of_ℕ :
      (n : ℕ) → n ≤ 100 → derive_status fl (of_ℕ fl n) (of_ℕ fl 50) (of_ℕ fl 90) ≡ whole_status n
  unfolding derive_status
  derive_status-of_ℕ n h = ground (arith, leb-of_ℕ 50 n, leb-of_ℕ 90 n)

  score-of_ℕ :
      (b : Bool) (before : TrustSnapshot F) (n : ℕ)
      → n ≤ 100
      → before.trust ≡ of_ℕ fl n
      → ((score fl (default_parameters fl) b before).trust ≡ of_ℕ fl (whole_next b n))
        × ((score fl (default_parameters fl) b before).status ≡ whole_status (whole_next b n))
  unfolding score
  score-of_ℕ b before n h e =
      let t = next_trust-of_ℕ b n h in
      rw e (t, rw t (derive_status-of_ℕ (whole_next b n) (whole_next-le b n h)))

  -- Where whole numbers up to 105 are exact, from a whole score of at most 100, and under the default
  -- parameters, the score after one or more predictions is exactly that of the whole-number model, and
  -- the status is the one which that score stands for.
  pub score_all-refines :
      (b : Bool) (predictions : List Bool) (before : TrustSnapshot F) (n : ℕ)
      → n ≤ 100
      → before.trust ≡ of_ℕ fl n
      → let after = score_all fl (default_parameters fl) (b ∷ predictions) before in
        (after.trust ≡ of_ℕ fl (whole_all (b ∷ predictions) n))
        × (after.status ≡ whole_status (whole_all (b ∷ predictions) n))
  unfolding score_all
  score_all-refines b [] before n h e = score-of_ℕ b before n h e
  score_all-refines b (c ∷ rest) before n h e =
      score_all-refines c rest (score fl (default_parameters fl) b before) (whole_next b n)
        (whole_next-le b n h) (score-of_ℕ b before n h e).0

  -- Where whole numbers up to 105 are exact, three or more faults in a row make a sensor FAULTY under
  -- the default parameters, whatever its whole score of at most 100 was.
  pub faults-reach-faulty :
      (k : ℕ) (before : TrustSnapshot F) (n : ℕ)
      → n ≤ 100
      → before.trust ≡ of_ℕ fl n
      → (score_all fl (default_parameters fl) (repeat (suc (suc (suc k))) true) before).status
        ≡ faulty
  faults-reach-faulty k before n h e =
      (score_all-refines true (repeat (suc (suc k)) true) before n h e).1
      ∙ (rw (whole_faults (suc (suc (suc k))) n) (ground arith))

  -- Where whole numbers up to 105 are exact, from a whole score n of at most 100 and under the default
  -- parameters, k + 1 healthy readings in a row make the sensor HEALTHY exactly when n + 5 * (k + 1)
  -- is at least 90.
  pub healthy_iff_enough_readings :
      (k : ℕ) (before : TrustSnapshot F) (n : ℕ)
      → n ≤ 100
      → before.trust ≡ of_ℕ fl n
      → ((score_all fl (default_parameters fl) (repeat (suc k) false) before).status ≡ healthy)
        ↔ (90 ≤ n + 5 * suc k)
  healthy_iff_enough_readings k before n h e =
      let status = (score_all-refines false (repeat k false) before n h e).1 in
      rw status (rw (whole_recovery (suc k) n h) (λ s. ground arith, λ s. ground arith))
