-- ===== src/Simulator/Coverage.antt =====
-- simulator/simulator.py: the sensors that one cycle posts for.
use trust_aware_self_healing.Shared.{ℕ, ◌≡◌, refl, List, [], ◌∷◌, String, map}
use trust_aware_self_healing.Models.{Sensor}
use trust_aware_self_healing.Store.Run.{Run, Result, ok, err, pure, continue, ◌>>=◌}
use trust_aware_self_healing.Store.Db.{Env}
use trust_aware_self_healing.Simulator.Values.{Roll}
use trust_aware_self_healing.Simulator.Ticks.{World, Posted, choose, post, post_one, post_all}

-- What holds of the value, where there is one.
abbrev pub IfReturned : {A : Type 0} → (A → Type 0) → Result A → Type 0
IfReturned Q (ok a) = Q a
IfReturned Q (err e) = Unit

IfReturned-bind :
    {S A B : Type 0} (Q : B → Type 0) (R : A → Type 0) (m : Run S A) (f : A → Run S B)
    → ((s : S) → IfReturned R (m s).0)
    → ((a : A) → R a → (s : S) → IfReturned Q (f a s).0)
    → (s : S) → IfReturned Q ((m >>= f) s).0
unfolding ◌>>=◌
IfReturned-bind Q R m f h k s = let (r, s') = m s in after r s' (h s)
  where
    after : (r : Result _) (t : _) → IfReturned R r → IfReturned Q (continue r f t).0
    after (ok a) t x = k a x t
    after (err e) t x = tt

anything : {A : Type 0} (r : Result A) → IfReturned (λ a. Unit {0}) r
anything (ok a) = tt
anything (err e) = tt

module _ (env : Env) (rate : env.floats.F) (rolls : ℕ → Roll env.floats.F) where
  open env use {floats.{F}}

  abbrev pub ids_posted : List (Posted F) → List String
  ids_posted results = map (λ (p : Posted F). p.sensor_id) results

  abbrev pub ids : List (Sensor F) → List String
  ids ds = map (λ (d : Sensor F). d.sensor_id) ds

  post_one-id :
      (d : Sensor F) (w : World env)
      → IfReturned (λ p. p.sensor_id ≡ d.sensor_id) (post_one env rate rolls d w).0
  unfolding post_one pure
  post_one-id d =
      IfReturned-bind _ (λ a. Unit {0}) _ _ (λ w. anything (choose env rate rolls d w).0)
        λ picked u.
          IfReturned-bind _ (λ a. Unit {0}) _ _ (λ w. anything (post env d.sensor_id picked.0 w).0)
            λ reading v w. refl

  -- Where the posts of a cycle all succeed, there is one for each of the sensors, in their order.
  pub post_all-covers :
      (ds : List (Sensor F)) (w : World env)
      → IfReturned (λ results. ids_posted results ≡ ids ds) (post_all env rate rolls ds w).0
  unfolding post_all pure
  post_all-covers [] = λ w. refl
  post_all-covers (d ∷ ds) =
      IfReturned-bind _ _ _ _ (post_one-id d)
        λ posted e. IfReturned-bind _ _ _ _ (post_all-covers ds) λ rest es w. cc
