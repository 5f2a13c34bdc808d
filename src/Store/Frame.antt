-- ===== src/Store/Frame.antt =====
-- Properties that do not look at some collections: what writes only to those keeps them.
use trust_aware_self_healing.Shared.{ℕ, Bool}
use trust_aware_self_healing.Store.Db.{Env, State, Table}
use trust_aware_self_healing.Store.Driver.{insert_one, insert_unique, update_one, delete_one}
use trust_aware_self_healing.Store.Keeps.{
  Keeps, IsStable, Keeps-bind, Keeps-pure, Keeps-lift, Keeps-if, Keeps-now_utc, Keeps-find_one,
  Keeps-find, Keeps-insert_one, Keeps-insert_unique, Keeps-update_one, Keeps-delete_one,
}

-- The property looks neither at the collection nor at the id that comes next.
pub record IsFree (env : Env) (P : State env → Type 0) {D : Type 0} (t : Table env D) : Type 0 where
  pub write :
      (s : State env) (c : env.mongo.Coll D) (n : ℕ) → P s → P (t.put c (record s { next_id = n }))

module _ (env : Env) (P : State env → Type 0) (stable : IsStable env P) {D : Type 0}
    (t : Table env D) where
  pub free-insert_one : (make : ℕ → D) → IsFree env P t → Keeps P (insert_one env t make)
  free-insert_one make free = Keeps-insert_one env P stable t make λ s h. free.write s _ _ h

  pub free-update_one : (p : D → Bool) (f : D → D) → IsFree env P t → Keeps P (update_one env t p f)
  free-update_one p f free = Keeps-update_one env P stable t p f λ s h. free.write s _ s.next_id h

  pub free-delete_one : (p : D → Bool) → IsFree env P t → Keeps P (delete_one env t p)
  free-delete_one p free = Keeps-delete_one env P stable t p λ s h. free.write s _ s.next_id h

  pub free-insert_unique :
      (taken : D → Bool) (make : ℕ → D) → IsFree env P t → Keeps P (insert_unique env t taken make)
  free-insert_unique taken make free =
      Keeps-insert_unique env P stable t taken make λ s h. free.write s _ _ h

pub ruleset keeps = (
  Keeps-bind, Keeps-pure, Keeps-lift, Keeps-if, Keeps-now_utc, Keeps-find_one, Keeps-find,
  free-insert_one, free-insert_unique, free-update_one, free-delete_one,
)
