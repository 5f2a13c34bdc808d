-- ===== src/Listing.antt =====
-- The reads that the services share: a sorted and limited listing, and the newest document.
use trust_aware_self_healing.Shared.{
  ℕ, zero, suc, Bool, true, ◌&&◌, ◌||◌, Option, none, some, List, [], ◌∷◌, String, str_eq, take,
  leb, ltb, ◌==◌,
}
use trust_aware_self_healing.Store.Run.{Run, pure, ◌>>=◌}
use trust_aware_self_healing.Store.Db.{Env, State, Table}
use trust_aware_self_healing.Store.Driver.{find}

-- `.sort([("timestamp", -1), ("_id", -1)])`, of two documents with these timestamps and ids.
abbrev pub newest_first : ℕ → ℕ → ℕ → ℕ → Bool
newest_first t i u j = ltb u t || (u == t && leb j i)

-- The filter `{field: value}`, left out where the value is None.
abbrev pub field_is : Option String → String → Bool
field_is none field = true
field_is (some value) field = str_eq field value

abbrev pub first_of_all : {D : Type 0} → List D → Option D
first_of_all [] = none
first_of_all (d ∷ ds) = some d

-- `.limit(limit)`: MongoDB reads a limit of 0 as none.
abbrev pub limited : {D : Type 0} → ℕ → List D → List D
limited zero docs = docs
limited (suc n) docs = take (suc n) docs

module _ (env : Env) {D : Type 0} (t : Table env D) where
  -- `find(query).sort(order).limit(limit)`
  unfoldable pub find_limited : (D → Bool) → (D → D → Bool) → ℕ → Run (State env) (List D)
  find_limited p order limit = do docs ← find env t p order; pure (limited limit docs)

  -- `find_one(query, sort=order)`
  unfoldable pub find_newest : (D → Bool) → (D → D → Bool) → Run (State env) (Option D)
  find_newest p order = do docs ← find env t p order; pure (first_of_all docs)
