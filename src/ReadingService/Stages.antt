-- ===== src/ReadingService/Stages.antt =====
-- Properties of the state that the stages behind a stored reading keep: each stage keeps what does not
-- look at the collections that it writes. Here are the steps that the stages share.
pub mod Detection
pub mod Trust
pub mod Value
pub mod Control
pub mod Chain
use trust_aware_self_healing.Shared.{ℕ, Bool}
use trust_aware_self_healing.Store.Run.{◌>>=◌}
use trust_aware_self_healing.Store.Db.{Env, State, Table}
use trust_aware_self_healing.Store.Keeps.{
  Keeps, IsStable, Keeps-bind, Keeps-pure, Keeps-lift, Keeps-find_one, Keeps-find,
}
use trust_aware_self_healing.Listing.{find_limited}
use trust_aware_self_healing.Validators.{ensure_exists}

module _ (env : Env) (P : State env → Type 0) (stable : IsStable env P) {D : Type 0} where
  pub find_limited-Keeps :
      (t : Table env D) (p : D → Bool) (order : D → D → Bool) (limit : ℕ)
      → Keeps P (find_limited env t p order limit)
  unfolding find_limited
  find_limited-Keeps t p order limit =
      Keeps-bind _ _ (Keeps-find env P stable t p order) λ docs. Keeps-pure _

  pub ensure_exists-Keeps : (t : Table env D) (p : D → Bool) → Keeps P (ensure_exists env t p)
  unfolding ensure_exists
  ensure_exists-Keeps t p = Keeps-bind _ _ (Keeps-find_one env P stable t p) λ doc. Keeps-lift _
