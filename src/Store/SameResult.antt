-- ===== src/Store/SameResult.antt =====
-- Two computations whose results look the same through a function.
use trust_aware_self_healing.Shared.{◌≡◌, refl}
use trust_aware_self_healing.Store.Run.{Result, ok, err, Run, continue, ◌>>=◌}

abbrev pub map_result : {A B : Type 0} → (A → B) → Result A → Result B
map_result f (ok a) = ok (f a)
map_result f (err e) = err e

module _ {S A B C : Type 0} (view : B → C) (f g : A → Run S B) where
  abbrev pub SameResults : Type 0
  SameResults = (a : A) (s : S) → map_result view (f a s).0 ≡ map_result view (g a s).0

  continue-SameResults :
      SameResults
      → (r : Result A) (s : S)
      → map_result view (continue r f s).0 ≡ map_result view (continue r g s).0
  continue-SameResults h (ok a) s = h a s
  continue-SameResults h (err e) s = refl

  -- After the same first computation.
  pub bind-SameResults :
      (m : Run S A)
      → SameResults
      → (s : S) → map_result view ((m >>= f) s).0 ≡ map_result view ((m >>= g) s).0
  unfolding ◌>>=◌
  bind-SameResults m h s = let (r, s') = m s in continue-SameResults h r s'
