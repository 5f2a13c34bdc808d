-- ===== src/Updates.antt =====
-- The body that the PUT handlers share: `$set` of the fields that are given, then the document.
pub mod Laws
use trust_aware_self_healing.Shared.{ℕ, Bool, true, false, not, Option, none, some, if◌then◌else◌}
use trust_aware_self_healing.Store.Run.{Run, pure, lift, or_raise, type_error, ◌>>=◌, ◌>>◌}
use trust_aware_self_healing.Store.Db.{Env, State, Table}
use trust_aware_self_healing.Store.Driver.{now_utc, find_one, update_one}

-- The filter `{"enabled": enabled}`, left out where `enabled` is None.
abbrev pub flag_is : Option Bool → Bool → Bool
flag_is none field = true
flag_is (some true) field = field
flag_is (some false) field = not field

module _ (env : Env) {D : Type 0} (t : Table env D) where
  -- `serialize_mongo_doc(await ....find_one(...))`, which raises on None.
  unfoldable pub read_back : (D → Bool) → Run (State env) D
  read_back p = do doc ← find_one env t p; lift (or_raise doc type_error)

  -- `change now` puts the given fields and `updated_at` into a document.
  unfoldable pub write_fields : (D → Bool) → Bool → (ℕ → D → D) → Run (State env) (Unit {0})
  write_fields p has_changes change =
      if has_changes then (do now ← now_utc env; update_one env t p (change now)) else pure tt

  unfoldable pub update_fields : (D → Bool) → Bool → (ℕ → D → D) → Run (State env) D
  unfolding write_fields read_back
  update_fields p has_changes change = do write_fields p has_changes change; read_back p
