-- ===== src/Mongo/Spec.antt =====
-- The document store behind `db[...]`, a parameter of the development: the driver calls that the
-- services make on one collection, and what MongoDB documents of them. A filter is a predicate on
-- documents, an update a function on them.
use trust_aware_self_healing.Shared.{
  ◌≡◌, Bool, true, false, Option, none, some, List, [], ◌∷◌, ◌++◌, map_option, All, ◌⊎◌,
}

pub record Mongo : Type 1 where
  pub Coll : Type 0 → Type 0
  pub find_one : {D : Type 0} → (D → Bool) → Coll D → Option D
  -- `find(filter).sort(order)`; `order d e` says that `d` does not stand behind `e`
  pub find : {D : Type 0} → (D → Bool) → (D → D → Bool) → Coll D → List D
  pub insert_one : {D : Type 0} → D → Coll D → Coll D
  pub update_one : {D : Type 0} → (D → Bool) → (D → D) → Coll D → Coll D
  pub delete_one : {D : Type 0} → (D → Bool) → Coll D → Coll D
  -- all that the collection holds, in the order of insertion; no call of the services
  pub documents : {D : Type 0} → Coll D → List D

module _ (mongo : Mongo) where
  open mongo use {Coll, find_one, find, insert_one, update_one, delete_one, documents}

  pub record IsMongo : Type 1 where
    -- a hit matches its filter
    pub find_one_matches :
        {D : Type 0} (p : D → Bool) (c : Coll D) (d : D) → find_one p c ≡ some d → p d ≡ true
    -- an inserted document is found by a filter that found nothing, and hides nothing
    pub find_one-insert_new :
        {D : Type 0} (p : D → Bool) (d : D) (c : Coll D)
        → p d ≡ true
        → find_one p c ≡ none
        → find_one p (insert_one d c) ≡ some d
    pub find_one-insert_other :
        {D : Type 0} (p : D → Bool) (d : D) (c : Coll D)
        → p d ≡ false
        → find_one p (insert_one d c) ≡ find_one p c
    -- what is found after an insertion is the new document, or was found before
    pub find_one-insert :
        {D : Type 0} (p : D → Bool) (d : D) (c : Coll D) (e : D)
        → find_one p (insert_one d c) ≡ some e
        → (e ≡ d) ⊎ (find_one p c ≡ some e)
    -- an update changes the document that its filter finds, and no other
    pub find_one-update :
        {D : Type 0} (p : D → Bool) (f : D → D) (c : Coll D)
        → ((d : D) → p d ≡ true → p (f d) ≡ true)
        → find_one p (update_one p f c) ≡ map_option f (find_one p c)
    pub find_one-update_other :
        {D : Type 0} (p q : D → Bool) (f : D → D) (c : Coll D)
        → ((d : D) → p d ≡ true → q d ≡ false)
        → ((d : D) → p d ≡ true → q (f d) ≡ false)
        → find_one q (update_one p f c) ≡ find_one q c
    -- where the two filters find the same document, the changed one stands in its place
    pub find_one-update_found :
        {D : Type 0} (p q : D → Bool) (f : D → D) (c : Coll D) (d : D)
        → find_one p c ≡ some d
        → find_one q c ≡ some d
        → q (f d) ≡ true
        → find_one q (update_one p f c) ≡ some (f d)
    -- every document listed matches the filter
    pub find_matches :
        {D : Type 0} (p : D → Bool) (order : D → D → Bool) (c : Coll D)
        → All (λ d. p d ≡ true) (find p order c)
    -- what a collection holds: a hit is one of its documents, an insertion adds one, an update puts
    -- changed documents in the place of documents that match, and a deletion leaves some
    pub All-find_one :
        {D : Type 0} (R : D → Type 0) (p : D → Bool) (c : Coll D) (d : D)
        → All R (documents c)
        → find_one p c ≡ some d
        → R d
    pub All-find :
        {D : Type 0} (R : D → Type 0) (p : D → Bool) (order : D → D → Bool) (c : Coll D)
        → All R (documents c)
        → All R (find p order c)
    pub documents-insert :
        {D : Type 0} (d : D) (c : Coll D) → documents (insert_one d c) ≡ documents c ++ (d ∷ [])
    pub All-update_one :
        {D : Type 0} (R : D → Type 0) (p : D → Bool) (f : D → D) (c : Coll D)
        → ((d : D) → p d ≡ true → R d → R (f d))
        → All R (documents c)
        → All R (documents (update_one p f c))
    pub All-delete_one :
        {D : Type 0} (R : D → Type 0) (p : D → Bool) (c : Coll D)
        → All R (documents c)
        → All R (documents (delete_one p c))
