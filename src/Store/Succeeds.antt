-- ===== src/Store/Succeeds.antt =====
-- Computations that never raise.
use trust_aware_self_healing.Shared.{◌≡◌, refl}
use trust_aware_self_healing.Store.Run.{
  Result, ok, err, Run, pure, attempt, on_success, continue, ◌>>=◌,
}

module _ {S : Type 0} where
  abbrev pub Succeeds : Run S (Unit {0}) → Type 0
  Succeeds m = (s : S) → (m s).0 ≡ ok tt

  pub on_success-Succeeds :
      {A : Type 0} (r : Result A) (f : A → Run S (Unit {0}))
      → ((a : A) → Succeeds (f a))
      → Succeeds (on_success r f)
  unfolding pure
  on_success-Succeeds (ok a) f h s = h a s
  on_success-Succeeds (err e) f h s = refl

  pub attempt-Succeeds :
      {A : Type 0} (m : Run S A) (f : Result A → Run S (Unit {0}))
      → ((r : Result A) → Succeeds (f r))
      → Succeeds (attempt m >>= f)
  unfolding ◌>>=◌
  attempt-Succeeds m f h s = let (r, s') = m s in h r s'

  pub pure-Succeeds : Succeeds (pure tt)
  unfolding pure
  pure-Succeeds s = refl

  -- What stands after a computation that never raises decides the result only by its state.
  pub continue-Succeeds :
      {A : Type 0} (m : Run S A) (n : A → Run S (Unit {0}))
      → ((a : A) → Succeeds (n a))
      → (s : S) → ((m >>= λ a. n a >>= λ _. pure a) s).0 ≡ (m s).0
  unfolding ◌>>=◌
  continue-Succeeds {A} m n h s = let (r, s') = m s in by_result r s'
    where
      after :
          (a : A) (r : Result (Unit {0})) (t : S)
          → r ≡ ok tt
          → (continue r (λ _. pure a) t).0 ≡ ok a
      after a (ok u) t e = refl
      after a (err x) t e = cc

      by_result : (r : Result A) (t : S) → (continue r (λ a. n a >>= λ _. pure a) t).0 ≡ r
      by_result (ok a) t = after a (n a t).0 (n a t).1 (h a t)
      by_result (err e) t = refl
