-- ===== src/Store/Keeps.antt =====
-- Properties of the state that a computation keeps, whether it returns or raises: one rule for each
-- way to build a computation.
use mathlib.Core.Path.{subst}
use trust_aware_self_healing.Shared.{
  ◌≡◌, refl, sym, ℕ, suc, Bool, true, false, Option, none, some, List, [], ◌∷◌, if◌then◌else◌,
}
use trust_aware_self_healing.Store.Run.{
  Result, ok, err, driver_error, Run, pure, gets, lift, attempt, on_success, ◌>>=◌,
}
use trust_aware_self_healing.Store.Db.{Env, State, Table}
use trust_aware_self_healing.Store.Driver.{
  answer, driver, now_utc, find_one, find, insert_one, insert_unique, update_one, delete_one,
  upsert_one,
}

pub record Keeps {S A : Type 0} (P : S → Type 0) (m : Run S A) : Type 0 where
  pub at : (s : S) → P s → P (m s).1

module _ {S A : Type 0} {P : S → Type 0} where
  -- A computation that only reads.
  pub Keeps-unchanged : (m : Run S A) → ((s : S) → (m s).1 ≡ s) → Keeps P m
  Keeps-unchanged m same = record { at = λ s. subst P (sym (same s)) }

  pub Keeps-pure : (a : A) → Keeps P (pure a)
  unfolding pure
  Keeps-pure a = Keeps-unchanged (pure a) (λ s. refl)

  pub Keeps-gets : (f : S → A) → Keeps P (gets f)
  unfolding gets
  Keeps-gets f = Keeps-unchanged (gets f) (λ s. refl)

  pub Keeps-lift : (r : Result A) → Keeps P (lift r)
  unfolding lift
  Keeps-lift r = Keeps-unchanged (lift r) (λ s. refl)

  pub Keeps-attempt : (m : Run S A) → Keeps P m → Keeps P (attempt m)
  unfolding attempt
  Keeps-attempt m k = record { at = λ s h. k.at s h }

  pub Keeps-if : (b : Bool) (m n : Run S A) → Keeps P m → Keeps P n → Keeps P (if b then m else n)
  Keeps-if true m n k l = k
  Keeps-if false m n k l = l

  pub Keeps-on_success :
      (r : Result A) (f : A → Run S Unit) → ((a : A) → Keeps P (f a)) → Keeps P (on_success r f)
  Keeps-on_success (ok a) f k = k a
  Keeps-on_success (err e) f k = record { at = λ s h. unfold pure in h }

module _ {S A B : Type 0} {P : S → Type 0} where
  Keeps-continue :
      (r : Result A) (f : A → Run S B) (s : S)
      → ((a : A) → Keeps P (f a))
      → P s
      → P (((lift r) >>= f) s).1
  unfolding ◌>>=◌
  Keeps-continue (ok a) f s k h = (k a).at s h
  Keeps-continue (err e) f s k h = h

  pub Keeps-bind :
      (m : Run S A) (f : A → Run S B) → Keeps P m → ((a : A) → Keeps P (f a)) → Keeps P (m >>= f)
  unfolding ◌>>=◌
  Keeps-bind m f k l = record {
    at = λ s h. let (r, s') = m s in Keeps-continue r f s' l (k.at s h);
  }

module _ (env : Env) (P : State env → Type 0) where
  -- The property does not look at the driver calls to come.
  abbrev pub IsStable : Type 0
  IsStable = (s : State env) (rest : List Bool) → P s → P (record s { outages = rest })

  module _ (stable : IsStable) where
    Keeps-answer :
        {A : Type 0} (o : List Bool) (m : Run (State env) A)
        → Keeps P m
        → (s : State env) → P s
        → P (answer env o m s).1
    Keeps-answer [] m k s h = k.at s h
    Keeps-answer (true ∷ rest) m k s h = stable s rest h
    Keeps-answer (false ∷ rest) m k s h = k.at (record s { outages = rest }) (stable s rest h)

    Keeps-driver : {A : Type 0} (m : Run (State env) A) → Keeps P m → Keeps P (driver env m)
    unfolding driver
    Keeps-driver m k = record { at = λ s h. Keeps-answer s.outages m k s h }

    pub Keeps-now_utc : Keeps P (now_utc env)
    unfolding now_utc
    Keeps-now_utc = record { at = λ s h. h }

    module _ {D : Type 0} (t : Table env D) where
      pub Keeps-find_one : (p : D → Bool) → Keeps P (find_one env t p)
      unfolding find_one
      Keeps-find_one p = Keeps-driver _ (record { at = λ s h. h })

      pub Keeps-find : (p : D → Bool) (order : D → D → Bool) → Keeps P (find env t p order)
      unfolding find
      Keeps-find p order = Keeps-driver _ (record { at = λ s h. h })

      pub Keeps-insert_one :
          (make : ℕ → D)
          → ((s : State env)
              → P s
              → P (
                  t.put
                    (env.mongo.insert_one (make s.next_id) (t.get s))
                    (record s { next_id = suc s.next_id })))
          → Keeps P (insert_one env t make)
      unfolding insert_one
      Keeps-insert_one make step = Keeps-driver _ (record { at = step })

      pub Keeps-insert_unique :
          (taken : D → Bool) (make : ℕ → D)
          → ((s : State env)
              → P s
              → P (
                  t.put
                    (env.mongo.insert_one (make s.next_id) (t.get s))
                    (record s { next_id = suc s.next_id })))
          → Keeps P (insert_unique env t taken make)
      unfolding insert_unique
      Keeps-insert_unique taken make step =
          Keeps-driver _ (record { at = λ s h. by_hit s h (env.mongo.find_one taken (t.get s)) })
        where
          answer_on : State env → Option D → Result ℕ × State env
          answer_on s none = (
            ok s.next_id,
            t.put (env.mongo.insert_one (make s.next_id) (t.get s))
                (record s { next_id = suc s.next_id }),
          )
          answer_on s (some d) = (err driver_error, s)

          by_hit : (s : State env) → P s → (hit : Option D) → P (answer_on s hit).1
          by_hit s h none = step s h
          by_hit s h (some d) = h

      pub Keeps-update_one :
          (p : D → Bool) (f : D → D)
          → ((s : State env) → P s → P (t.put (env.mongo.update_one p f (t.get s)) s))
          → Keeps P (update_one env t p f)
      unfolding update_one
      Keeps-update_one p f step = Keeps-driver _ (record { at = step })

      pub Keeps-delete_one :
          (p : D → Bool)
          → ((s : State env) → P s → P (t.put (env.mongo.delete_one p (t.get s)) s))
          → Keeps P (delete_one env t p)
      unfolding delete_one
      Keeps-delete_one p step = Keeps-driver _ (record { at = step })

      pub Keeps-upsert_one :
          (p : D → Bool) (f : D → D) (d : D)
          → ((s : State env) → P s → P (t.put (env.mongo.insert_one d (t.get s)) s))
          → ((s : State env) → P s → P (t.put (env.mongo.update_one p f (t.get s)) s))
          → Keeps P (upsert_one env t p f d)
      unfolding upsert_one
      Keeps-upsert_one p f d insert update =
          Keeps-driver _ (record { at = λ s h. by_hit s h (env.mongo.find_one p (t.get s)) })
        where
          by_hit :
              (s : State env)
              → P s
              → (hit : Option D)
              → P (
                  t.put
                    (elim hit [
                      | none ↦ env.mongo.insert_one d (t.get s)
                      | some e ↦ env.mongo.update_one p f (t.get s)
                    ])
                    s)
          by_hit s h none = insert s h
          by_hit s h (some e) = update s h
