-- ===== src/Store/Driver.antt =====
-- The driver calls of the services on one collection, and `now_utc`. A call may raise, as `outages`
-- says, and then changes nothing.
use trust_aware_self_healing.Shared.{ℕ, suc, Bool, true, false, Option, none, some, List, [], ◌∷◌}
use trust_aware_self_healing.Store.Run.{Run, ok, err, driver_error}
use trust_aware_self_healing.Store.Db.{Env, State, Table}

module _ (env : Env) {A : Type 0} where
  abbrev pub answer : List Bool → Run (State env) A → Run (State env) A
  answer [] m s = m s
  answer (true ∷ rest) m s = (err driver_error, record s { outages = rest })
  answer (false ∷ rest) m s = m (record s { outages = rest })

  unfoldable pub driver : Run (State env) A → Run (State env) A
  driver m s = answer s.outages m s

module _ (env : Env) where
  unfoldable pub now_utc : Run (State env) ℕ
  now_utc s = (ok s.clock, s)

  module _ {D : Type 0} (t : Table env D) where
    unfoldable pub find_one : (D → Bool) → Run (State env) (Option D)
    unfolding driver
    find_one p = driver env λ s. (ok (env.mongo.find_one p (t.get s)), s)

    unfoldable pub find : (D → Bool) → (D → D → Bool) → Run (State env) (List D)
    unfolding driver
    find p order = driver env λ s. (ok (env.mongo.find p order (t.get s)), s)

    -- `insert_one`; the document gets a fresh id, which comes back as `inserted_id`
    unfoldable pub insert_one : (ℕ → D) → Run (State env) ℕ
    unfolding driver
    insert_one make = driver env λ s. (
      ok s.next_id,
      t.put (env.mongo.insert_one (make s.next_id) (t.get s))
          (record s { next_id = suc s.next_id }),
    )

    -- `insert_one` under unique indexes: it raises where `taken` finds a document
    unfoldable pub insert_unique : (D → Bool) → (ℕ → D) → Run (State env) ℕ
    unfolding driver
    insert_unique taken make = driver env λ s. elim (env.mongo.find_one taken (t.get s)) [
      | none ↦ (
        ok s.next_id,
        t.put (env.mongo.insert_one (make s.next_id) (t.get s))
            (record s { next_id = suc s.next_id }),
      )
      | some d ↦ (err driver_error, s)
    ]

    unfoldable pub update_one : (D → Bool) → (D → D) → Run (State env) (Unit {0})
    unfolding driver
    update_one p f = driver env λ s. (ok tt, t.put (env.mongo.update_one p f (t.get s)) s)

    unfoldable pub delete_one : (D → Bool) → Run (State env) (Unit {0})
    unfolding driver
    delete_one p = driver env λ s. (ok tt, t.put (env.mongo.delete_one p (t.get s)) s)

    -- `update_one(..., upsert=True)`: where no document matches, `fresh` is inserted
    unfoldable pub upsert_one : (D → Bool) → (D → D) → D → Run (State env) (Unit {0})
    unfolding driver
    upsert_one p f fresh = driver env λ s. (
      ok tt,
      t.put
          (elim (env.mongo.find_one p (t.get s)) [
            | none ↦ env.mongo.insert_one fresh (t.get s)
            | some d ↦ env.mongo.update_one p f (t.get s)
          ])
          s,
    )
