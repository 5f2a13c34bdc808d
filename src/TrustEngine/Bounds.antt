-- ===== src/TrustEngine/Bounds.antt =====
-- services/trust_engine.py: the range of the trust score.
use trust_aware_self_healing.Shared.{◌≡◌, Bool, true, false, List, [], ◌∷◌, arith}
use trust_aware_self_healing.Floats.{Floats, IsOrdered, max}
use trust_aware_self_healing.Floats.Order.{le-max_left, le-max_right, max-le, min-le_left, le-min}
use trust_aware_self_healing.TrustEngine.Scoring.{
  TrustParameters, TrustSnapshot, next_trust, score, score_all,
}

module _ (fl : Floats) where
  open fl use {F, leb, sub}

  -- What the schema of the settings checks: floor and ceiling lie in a range, penalty and gain are
  -- not negative. The floor may lie above the ceiling.
  pub record IsWithin (lo hi : F) (p : TrustParameters F) : Type 0 where
    pub lo-le-min : leb lo p.trust_min ≡ true
    pub min-le-hi : leb p.trust_min hi ≡ true
    pub lo-le-max : leb lo p.trust_max ≡ true
    pub max-le-hi : leb p.trust_max hi ≡ true
    pub penalty_nonneg : leb (fl.literal 0 0) p.fault_penalty ≡ true
    pub gain_nonneg : leb (fl.literal 0 0) p.recovery_gain ≡ true

  abbrev pub InRange : F → F → F → Type 0
  InRange lo hi t = (leb lo t ≡ true) × (leb t hi ≡ true)

module _ (fl : Floats) (laws : IsOrdered fl) where
  open fl use {F, leb, add, sub}
  open laws use {le_trans, sub-le, le-add}

  pub next_trust-InRange :
      (lo hi : F) (p : TrustParameters F)
      → IsWithin fl lo hi p
      → (is_fault : Bool) (t : F) → InRange fl lo hi t
      → InRange fl lo hi (next_trust fl p is_fault t)
  unfolding next_trust
  next_trust-InRange lo hi p w true t (l, h) =
      let lowered = sub t p.fault_penalty in
      (
        le_trans _ _ _ w.lo-le-min (le-max_left fl laws p.trust_min lowered),
        max-le fl laws p.trust_min lowered hi w.min-le-hi
            (le_trans _ _ _ (sub-le t p.fault_penalty w.penalty_nonneg) h),
      )
  next_trust-InRange lo hi p w false t (l, h) =
      let raised = add t p.recovery_gain in
      (
        le-min fl laws p.trust_max raised lo w.lo-le-max
            (le_trans _ _ _ l (le-add t p.recovery_gain w.gain_nonneg)),
        le_trans _ _ _ (min-le_left fl laws p.trust_max raised) w.max-le-hi,
      )

  -- With ordered numbers: if the score, the floor and the ceiling lie in a range, and the penalty and
  -- the gain are not negative, then the score stays in that range over any run of predictions, whatever
  -- the thresholds are.
  pub score_all-InRange :
      (lo hi : F) (p : TrustParameters F)
      → IsWithin fl lo hi p
      → (predictions : List Bool) (before : TrustSnapshot F) → InRange fl lo hi before.trust
      → InRange fl lo hi (score_all fl p predictions before).trust
  unfolding score_all score
  score_all-InRange lo hi p w [] before r = r
  score_all-InRange lo hi p w (b ∷ bs) before r =
      score_all-InRange lo hi p w bs (score fl p b before)
        (next_trust-InRange lo hi p w b before.trust r)

  -- With ordered numbers, and a penalty and a gain that are not negative: for a score between the floor
  -- and the ceiling, a fault does not raise it and a healthy reading does not lower it.
  pub next_trust_direction :
      (p : TrustParameters F) (t : F)
      → leb (fl.literal 0 0) p.fault_penalty ≡ true
      → leb (fl.literal 0 0) p.recovery_gain ≡ true
      → leb p.trust_min t ≡ true
      → leb t p.trust_max ≡ true
      → (leb (next_trust fl p true t) t ≡ true) × (leb t (next_trust fl p false t) ≡ true)
  unfolding next_trust
  next_trust_direction p t hp hg hl hh = (
    max-le fl laws p.trust_min (sub t p.fault_penalty) t hl (sub-le t p.fault_penalty hp),
    le-min fl laws p.trust_max (add t p.recovery_gain) t hh (le-add t p.recovery_gain hg),
  )

  -- With ordered numbers: if a score less the penalty is above the ceiling, as it can be once the
  -- ceiling was lowered, then the score after a fault is above the ceiling too.
  next_trust_above_ceiling :
      (p : TrustParameters F) (t : F)
      → leb (sub t p.fault_penalty) p.trust_max ≡ false
      → leb (next_trust fl p true t) p.trust_max ≡ false
  unfolding next_trust
  next_trust_above_ceiling p t h = above p.trust_min (sub t p.fault_penalty) p.trust_max h
    where
      above : (x y z : F) → leb y z ≡ false → leb (max fl x y) z ≡ false
      above x y z e = ground (arith, le-max_right fl laws x y, le_trans y (max fl x y) z)
