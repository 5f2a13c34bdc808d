-- ===== src/Store/Ensures.antt =====
-- Properties that a computation keeps, with what it ensures of the value that it returns.
use trust_aware_self_healing.Shared.{Bool, true, false, Option, List, [], ◌∷◌}
use trust_aware_self_healing.Store.Run.{Result, ok, err, Run, lift, attempt, continue, ◌>>=◌}
use trust_aware_self_healing.Store.Db.{Env, State, Table}
use trust_aware_self_healing.Store.Driver.{answer, find_one, driver}
use trust_aware_self_healing.Store.Keeps.{Keeps, IsStable}

-- What holds of the value, if there is one.
abbrev pub Returns : {A : Type 0} → (A → Type 0) → Result A → Type 0
Returns Q (ok a) = Q a
Returns Q (err e) = Unit

trivially : {A : Type 0} (r : Result A) → Returns (λ _. Unit) r
trivially (ok a) = tt
trivially (err e) = tt

weaken-Returns :
    {A : Type 0} {Q R : A → Type 0} (r : Result A)
    → ((a : A) → Q a → R a)
    → Returns Q r
    → Returns R r
weaken-Returns (ok a) h q = h a q
weaken-Returns (err e) h q = tt

pub record Ensures {S A : Type 0} (P : S → Type 0) (m : Run S A) (Q : A → Type 0) : Type 0 where
  pub keeps : (s : S) → P s → P (m s).1
  pub returns : (s : S) → P s → Returns Q (m s).0

module _ {S A : Type 0} {P : S → Type 0} where
  pub Keeps-of_Ensures : {m : Run S A} {Q : A → Type 0} → Ensures P m Q → Keeps P m
  Keeps-of_Ensures e = record { at = e.keeps }

  pub Ensures-lift : (r : Result A) (Q : A → Type 0) → Returns Q r → Ensures P (lift r) Q
  unfolding lift
  Ensures-lift r Q h = record { keeps = λ s p. p; returns = λ s p. h }

  pub Ensures-attempt :
      (m : Run S A) (Q : A → Type 0) (R : Result A → Type 0)
      → Ensures P m Q
      → ((r : Result A) → Returns Q r → R r)
      → Ensures P (attempt m) R
  unfolding attempt
  Ensures-attempt m Q R e h = record { keeps = e.keeps; returns = λ s p. h (m s).0 (e.returns s p) }

  pub Ensures-weaken :
      {m : Run S A} {Q R : A → Type 0} → Ensures P m Q → ((a : A) → Q a → R a) → Ensures P m R
  Ensures-weaken {m} {Q} {R} e h = record {
    keeps = e.keeps;
    returns = λ s p. weaken-Returns (m s).0 h (e.returns s p);
  }

  pub Ensures-of_Keeps : {m : Run S A} → Keeps P m → Ensures P m (λ _. Unit)
  Ensures-of_Keeps {m} k = record { keeps = k.at; returns = λ s p. trivially (m s).0 }

module _ {S A B : Type 0} {P : S → Type 0} where
  module _ (Q : A → Type 0) (R : B → Type 0) (f : A → Run S B) where
    continue-keeps :
        (r : Result A) (s : S)
        → ((a : A) → Q a → Ensures P (f a) R)
        → P s
        → Returns Q r
        → P (continue r f s).1
    continue-keeps (ok a) s k p q = (k a q).keeps s p
    continue-keeps (err e) s k p q = p

    continue-Returns :
        (r : Result A) (s : S)
        → ((a : A) → Q a → Ensures P (f a) R)
        → P s
        → Returns Q r
        → Returns R (continue r f s).0
    continue-Returns (ok a) s k p q = (k a q).returns s p
    continue-Returns (err e) s k p q = tt

  pub Ensures-bind :
      (m : Run S A) (f : A → Run S B) (Q : A → Type 0) (R : B → Type 0)
      → Ensures P m Q
      → ((a : A) → Q a → Ensures P (f a) R)
      → Ensures P (m >>= f) R
  unfolding ◌>>=◌
  Ensures-bind m f Q R e k = record {
    keeps = λ s p. continue-keeps Q R f (m s).0 (m s).1 k (e.keeps s p) (e.returns s p);
    returns = λ s p. continue-Returns Q R f (m s).0 (m s).1 k (e.keeps s p) (e.returns s p);
  }

module _ (env : Env) (P : State env → Type 0) (stable : IsStable env P) where
  answer-Returns :
      {A : Type 0} (Q : A → Type 0) (o : List Bool) (m : Run (State env) A)
      → ((s : State env) → P s → Returns Q (m s).0)
      → (s : State env) → P s
      → Returns Q (answer env o m s).0
  answer-Returns Q [] m h s p = h s p
  answer-Returns Q (true ∷ rest) m h s p = tt
  answer-Returns Q (false ∷ rest) m h s p = h (record s { outages = rest }) (stable s rest p)

  -- What is found is what the state holds.
  pub Ensures-find_one :
      {D : Type 0} (t : Table env D) (p : D → Bool) (Q : Option D → Type 0)
      → Keeps P (find_one env t p)
      → ((s : State env) → P s → Q (env.mongo.find_one p (t.get s)))
      → Ensures P (find_one env t p) Q
  unfolding find_one driver
  Ensures-find_one t p Q k h = record {
    keeps = k.at;
    returns =
        λ s q. answer-Returns Q s.outages (λ s'. (ok (env.mongo.find_one p (t.get s')), s')) h s q;
  }
