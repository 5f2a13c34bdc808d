-- ===== src/Validators.antt =====
-- utils/validators.py: the checks that need a look into the database.
use trust_aware_self_healing.Shared.{Bool, Option, none, some, if◌then◌else◌}
use trust_aware_self_healing.Floats.{Floats}
use trust_aware_self_healing.Store.Run.{
  Run, Result, ok, err, lift, or_raise, ◌>>=◌, not_found, conflict, bad_request,
}
use trust_aware_self_healing.Store.Db.{Env, State, Table}
use trust_aware_self_healing.Store.Driver.{find_one}

-- 409 where a document is found.
abbrev pub absent : {D : Type 0} → Option D → Result (Unit {0})
absent none = ok tt
absent (some d) = err conflict

module _ (env : Env) {D : Type 0} (t : Table env D) where
  unfoldable pub ensure_unique : (D → Bool) → Run (State env) (Unit {0})
  ensure_unique p = do existing ← find_one env t p; lift (absent existing)

  unfoldable pub ensure_exists : (D → Bool) → Run (State env) D
  ensure_exists p = do doc ← find_one env t p; lift (or_raise doc not_found)

unfoldable pub validate_range : (fl : Floats) → fl.F → fl.F → Result (Unit {0})
validate_range fl min_value max_value =
    if fl.leb max_value min_value then err bad_request else ok tt
