-- ===== src/Mongo/Contents.antt =====
-- What holds of every document of a collection, through insertions, updates and deletions.
use mathlib.Core.Path.{subst}
use trust_aware_self_healing.Shared.{sym, List, [], ◌∷◌, ◌++◌, All}
use trust_aware_self_healing.Mongo.Spec.{Mongo, IsMongo}

pub All-append :
    {D : Type 0} (R : D → Type 0) (xs : List D) (d : D) → All R xs → R d → All R (xs ++ (d ∷ []))
All-append R [] d h r = (r, tt)
All-append R (x ∷ xs) d h r = (h.0, All-append R xs d h.1 r)

module _ (mongo : Mongo) {D : Type 0} (R : D → Type 0) where
  open mongo use {Coll, insert_one, documents}

  abbrev pub AllStored : Coll D → Type 0
  AllStored c = All R (documents c)

  pub AllStored-insert :
      (laws : IsMongo mongo) (d : D) (c : Coll D) → R d → AllStored c → AllStored (insert_one d c)
  AllStored-insert laws d c r h =
      subst (All R) (sym (laws.documents-insert d c)) (All-append R (documents c) d h r)
