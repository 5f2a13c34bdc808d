-- ===== src/Store/Quiet.antt =====
-- Total correctness while no driver call fails: a computation returns, and leaves a state with a given
-- property of the value and the state.
use trust_aware_self_healing.Shared.{
  ℕ, suc, ◌≡◌, refl, sym, Bool, true, false, Option, none, some, List, [], ◌∷◌, if◌then◌else◌,
}
use mathlib.Core.Path.{subst}
use trust_aware_self_healing.Store.Run.{Result, ok, err, Run, pure, attempt, continue, ◌>>=◌}
use trust_aware_self_healing.Store.Db.{Env, State, Table}
use trust_aware_self_healing.Store.Driver.{
  answer, driver, now_utc, find_one, insert_one, update_one, upsert_one,
}

abbrev pub Post : {S A : Type 0} → (A → S → Type 0) → Result A × S → Type 0
Post Q (ok a, s) = Q a s
Post Q (err e, s) = ⊥

pub record Total {S A : Type 0} (P : S → Type 0) (m : Run S A) (Q : A → S → Type 0) : Type 0 where
  pub run : (s : S) → P s → Post Q (m s)

module _ {S A : Type 0} {P : S → Type 0} where
  pub Total-pure : (a : A) (Q : A → S → Type 0) → ((s : S) → P s → Q a s) → Total P (pure a) Q
  unfolding pure
  Total-pure a Q h = record { run = h }

  pub Total-attempt :
      (m : Run S A) (Q : A → S → Type 0) (R : Result A → S → Type 0)
      → Total P m Q
      → ((a : A) (s : S) → Q a s → R (ok a) s)
      → Total P (attempt m) R
  unfolding attempt
  Total-attempt m Q R t h = record { run = λ s p. let (r, s') = m s in lifted r s' (t.run s p) }
    where
      lifted : (r : Result A) (s : S) → Post Q (r, s) → R r s
      lifted (ok a) s q = h a s q
      lifted (err e) s q = absurd q

  pub Total-weaken :
      (m : Run S A) (Q R : A → S → Type 0)
      → Total P m Q
      → ((a : A) (s : S) → Q a s → R a s)
      → Total P m R
  Total-weaken m Q R t h = record { run = λ s p. let (r, s') = m s in weaker r s' (t.run s p) }
    where
      weaker : (r : Result A) (s : S) → Post Q (r, s) → Post R (r, s)
      weaker (ok a) s q = h a s q
      weaker (err e) s q = q

  -- A fact that is not about the state is carried along.
  pub Total-with :
      (X : Type 0) (m : Run S A) (Q : A → S → Type 0)
      → Total P m Q
      → Total (λ s. P s × X) m (λ a s. Q a s × X)
  Total-with X m Q t = record { run = λ s p. let (r, s') = m s in carried r s' (t.run s p.0) p.1 }
    where
      carried : (r : Result A) (s : S) → Post Q (r, s) → X → Post (λ a t. Q a t × X) (r, s)
      carried (ok a) s q x = (q, x)
      carried (err e) s q x = q

  pub Total-if :
      (b : Bool) (m n : Run S A) (Q : A → S → Type 0)
      → Total P m Q
      → Total P n Q
      → Total P (if b then m else n) Q
  Total-if true m n Q k l = k
  Total-if false m n Q k l = l

module _ {S A B : Type 0} {P : S → Type 0} where
  pub Total-bind :
      (m : Run S A) (f : A → Run S B) (Q : A → S → Type 0) (R : B → S → Type 0)
      → Total P m Q
      → ((a : A) → Total (Q a) (f a) R)
      → Total P (m >>= f) R
  unfolding ◌>>=◌
  Total-bind m f Q R t k = record { run = λ s p. let (r, s') = m s in go r s' (t.run s p) }
    where
      go : (r : Result A) (s : S) → Post Q (r, s) → Post R (continue r f s)
      go (ok a) s q = (k a).run s q
      go (err e) s q = absurd q

module _ (env : Env) where
  -- No driver call to come fails.
  abbrev pub IsQuiet : State env → Type 0
  IsQuiet s = s.outages ≡ []

  answer-IsQuiet :
      {A : Type 0} (o : List Bool) (m : Run (State env) A) (s : State env)
      → o ≡ []
      → answer env o m s ≡ m s
  answer-IsQuiet [] m s h = refl
  answer-IsQuiet (b ∷ rest) m s h = cc

  pub driver-IsQuiet :
      {A : Type 0} (m : Run (State env) A) (s : State env) → IsQuiet s → driver env m s ≡ m s
  unfolding driver
  driver-IsQuiet m s h = answer-IsQuiet s.outages m s h

  module _ {P : State env → Type 0} (quiet : (s : State env) → P s → IsQuiet s) where
    Total-driver :
        {A : Type 0} (m : Run (State env) A) (Q : A → State env → Type 0)
        → ((s : State env) → P s → Post Q (m s))
        → Total P (driver env m) Q
    unfolding driver
    Total-driver m Q h = record {
      run = λ s p. subst (Post Q) (sym (answer-IsQuiet s.outages m s (quiet s p))) (h s p);
    }

    pub Total-now_utc :
        (Q : ℕ → State env → Type 0)
        → ((s : State env) → P s → Q s.clock s)
        → Total P (now_utc env) Q
    unfolding now_utc
    Total-now_utc Q h = record { run = h }

    module _ {D : Type 0} (t : Table env D) where
      pub Total-find_one :
          (p : D → Bool) (Q : Option D → State env → Type 0)
          → ((s : State env) → P s → Q (env.mongo.find_one p (t.get s)) s)
          → Total P (find_one env t p) Q
      unfolding find_one
      Total-find_one p Q h = Total-driver _ Q h

      pub Total-insert_one :
          (make : ℕ → D) (Q : ℕ → State env → Type 0)
          → ((s : State env)
              → P s
              → Q s.next_id (
                  t.put
                    (env.mongo.insert_one (make s.next_id) (t.get s))
                    (record s { next_id = suc s.next_id })))
          → Total P (insert_one env t make) Q
      unfolding insert_one
      Total-insert_one make Q h = Total-driver _ Q h

      pub Total-update_one :
          (p : D → Bool) (f : D → D) (Q : Unit {0} → State env → Type 0)
          → ((s : State env) → P s → Q tt (t.put (env.mongo.update_one p f (t.get s)) s))
          → Total P (update_one env t p f) Q
      unfolding update_one
      Total-update_one p f Q h = Total-driver _ Q h

      pub Total-upsert_one :
          (p : D → Bool) (f : D → D) (d : D) (Q : Unit {0} → State env → Type 0)
          → ((s : State env)
              → P s
              → Q tt (
                  t.put
                    (elim (env.mongo.find_one p (t.get s)) [
                      | none ↦ env.mongo.insert_one d (t.get s)
                      | some e ↦ env.mongo.update_one p f (t.get s)
                    ])
                    s))
          → Total P (upsert_one env t p f d) Q
      unfolding upsert_one
      Total-upsert_one p f d Q h = Total-driver _ Q h
