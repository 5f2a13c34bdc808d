-- ===== src/Store/Run.antt =====
-- Python code that may raise. What was written before an exception stays written, so the state
-- comes back beside the error. `attempt` is `try`: it hands the exception over as a value.
use trust_aware_self_healing.Shared.{Option, none, some}

pub data Error : Type 0 where
  -- `HTTPException` with its status
  not_found conflict bad_request unauthorized service_unavailable : Error
  value_error type_error : Error
  -- `FaultDetectionUnavailable`, `VirtualSensorUnavailable`
  model_unavailable : Error
  -- what joblib, sklearn and the driver raise
  load_error predict_error driver_error : Error
  -- `IndexError`, and what google-auth raises besides `ValueError`
  index_error oauth_error : Error
  -- `raise_for_status` of the simulator's HTTP client
  http_error : Error
  -- `SystemExit` of a training script
  system_exit : Error

pub data Result (A : Type 0) : Type 0 where
  ok : A → Result A
  err : Error → Result A

abbrev pub Run : Type 0 → Type 0 → Type 0
Run S A = S → Result A × S

-- The value, or the exception where there is none.
abbrev pub or_raise : {A : Type 0} → Option A → Error → Result A
or_raise none e = err e
or_raise (some a) e = ok a

module _ {S A : Type 0} where
  unfoldable pub pure : A → Run S A
  pure a s = (ok a, s)

  unfoldable pub gets : (S → A) → Run S A
  gets f s = (ok (f s), s)

  unfoldable pub lift : Result A → Run S A
  lift r s = (r, s)

  unfoldable pub attempt : Run S A → Run S (Result A)
  attempt m s = let (r, s') = m s in (ok r, s')

module _ {S A B : Type 0} where
  abbrev pub continue : Result A → (A → Run S B) → Run S B
  continue (ok a) f s = f a s
  continue (err e) f s = (err e, s)

  infixl 5 ◌>>=◌ ◌>>◌
  -- opening this opens the ways to build a computation too
  unfoldable pub ◌>>=◌ : Run S A → (A → Run S B) → Run S B
  unfolding pure gets lift attempt
  ◌>>=◌ m f s = let (r, s') = m s in continue r f s'

  abbrev pub ◌>>◌ : Run S A → Run S B → Run S B
  m >> n = m >>= λ _. n

module _ {S A : Type 0} where
  -- the next step of a best-effort chain: run on a result, and dropped after an exception
  abbrev pub on_success : Result A → (A → Run S (Unit {0})) → Run S (Unit {0})
  on_success (ok a) f = f a
  on_success (err e) f = pure tt
