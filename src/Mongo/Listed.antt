-- ===== src/Mongo/Listed.antt =====
-- A store that meets the laws of `Mongo`: a collection is the list of its documents, oldest first.
use mathlib.Core.Option.{some-injective}
use mathlib.Core.Path.{subst}
use trust_aware_self_healing.Shared.{
  ◌≡◌, refl, Bool, true, false, Option, none, some, List, [], ◌∷◌, ◌++◌, arith, map_option, All,
  if◌then◌else◌, Bool-cases, ◌⊎◌, inl, inr, sym, ap, ◌∙◌,
}
use trust_aware_self_healing.Mongo.Spec.{Mongo, IsMongo}

module _ {D : Type 0} (p : D → Bool) where
  abbrev pub first : List D → Option D
  first [] = none
  first (d ∷ ds) = if p d then some d else first ds

  abbrev pub matching : List D → List D
  matching [] = []
  matching (d ∷ ds) = if p d then d ∷ matching ds else matching ds

  abbrev pub update_first : (D → D) → List D → List D
  update_first f [] = []
  update_first f (d ∷ ds) = if p d then f d ∷ ds else d ∷ update_first f ds

  abbrev pub delete_first : List D → List D
  delete_first [] = []
  delete_first (d ∷ ds) = if p d then ds else d ∷ delete_first ds

module _ {D : Type 0} (order : D → D → Bool) where
  abbrev pub insert_sorted : D → List D → List D
  insert_sorted d [] = d ∷ []
  insert_sorted d (e ∷ es) = if order d e then d ∷ e ∷ es else e ∷ insert_sorted d es

  abbrev pub sorted : List D → List D
  sorted [] = []
  sorted (d ∷ ds) = insert_sorted d (sorted ds)

abbrev pub append_one : {D : Type 0} → D → List D → List D
append_one d ds = ds ++ (d ∷ [])

abbrev pub listed : Mongo
listed = record {
  Coll = List;
  find_one = λ p c. first p c;
  find = λ p order c. sorted order (matching p c);
  insert_one = append_one;
  update_one = λ p f c. update_first p f c;
  delete_one = λ p c. delete_first p c;
  documents = λ c. c;
}

module _ {D : Type 0} (p : D → Bool) where
  first_matches : (c : List D) (d : D) → first p c ≡ some d → p d ≡ true
  first_matches [] d e = ground arith
  first_matches (x ∷ c) d e = ground (arith, first_matches c d)

  first-append_new :
      (d : D) (c : List D) → p d ≡ true → first p c ≡ none → first p (append_one d c) ≡ some d
  first-append_new d [] h e = ground arith
  first-append_new d (x ∷ c) h e = ground (arith, first-append_new d c)

  first-append_other : (d : D) (c : List D) → p d ≡ false → first p (append_one d c) ≡ first p c
  first-append_other d [] h = ground arith
  first-append_other d (x ∷ c) h = ground (arith, first-append_other d c h)

  first-append :
      (d : D) (c : List D) (e : D)
      → first p (append_one d c) ≡ some e
      → (e ≡ d) ⊎ (first p c ≡ some e)
  first-append d [] e h = elim (Bool-cases (p d)) [
    | inl m ↦ inl (sym (some-injective _ _ (rw m at h)))
    | inr m ↦ inr (rw m at h)
  ]
  first-append d (x ∷ c) e h = elim (Bool-cases (p x)) [
    | inl m ↦ inr (rw m (rw m at h))
    | inr m ↦ rw m (first-append d c e (rw m at h))
  ]

  first-update :
      (f : D → D) (c : List D)
      → ((d : D) → p d ≡ true → p (f d) ≡ true)
      → first p (update_first p f c) ≡ map_option f (first p c)
  first-update f [] h = refl
  first-update f (x ∷ c) h = ground (arith, h x, first-update f c h)

  first-update_other :
      (q : D → Bool) (f : D → D) (c : List D)
      → ((d : D) → p d ≡ true → q d ≡ false)
      → ((d : D) → p d ≡ true → q (f d) ≡ false)
      → first q (update_first p f c) ≡ first q c
  first-update_other q f [] h k = refl
  first-update_other q f (x ∷ c) h k = ground (arith, h x, k x, first-update_other q f c h k)

  matching-All : (c : List D) → All (λ d. p d ≡ true) (matching p c)
  matching-All [] = tt
  matching-All (x ∷ c) = elim (Bool-cases (p x)) [
    | inl e ↦ rw e (e, matching-All c)
    | inr e ↦ rw e (matching-All c)
  ]

-- A head that one filter finds, the other finds too.
same_head :
    {D : Type 0} (p q : D → Bool) (x : D) (c : List D) (d : D)
    → first p (x ∷ c) ≡ some d
    → first q (x ∷ c) ≡ some d
    → p x ≡ true
    → q x ≡ true
same_head p q x c d hp hq m =
    let is_d : x ≡ d = some-injective _ _ (rw m at hp) in ap q is_d ∙ first_matches q (x ∷ c) d hq

first-update_found :
    {D : Type 0} (p q : D → Bool) (f : D → D) (c : List D) (d : D)
    → first p c ≡ some d
    → first q c ≡ some d
    → q (f d) ≡ true
    → first q (update_first p f c) ≡ some (f d)
first-update_found p q f [] d hp hq h = cc
first-update_found p q f (x ∷ c) d hp hq h = elim (Bool-cases (p x)) [
  | inl m ↦ ground (arith, same_head p q x c d hp hq)
  | inr m ↦ elim (Bool-cases (q x)) [
    | inl n ↦ absurd (ground (arith, same_head q p x c d hq hp))
    | inr n ↦ ground (arith, first-update_found p q f c d)
  ]
]

module _ {D : Type 0} (P : D → Type 0) (order : D → D → Bool) where
  insert_sorted-All : (d : D) (ds : List D) → P d → All P ds → All P (insert_sorted order d ds)
  insert_sorted-All d [] h k = (h, tt)
  insert_sorted-All d (e ∷ es) h k = elim (Bool-cases (order d e)) [
    | inl o ↦ rw o (h, k)
    | inr o ↦ rw o (k.0, insert_sorted-All d es h k.1)
  ]

  sorted-All : (ds : List D) → All P ds → All P (sorted order ds)
  sorted-All [] k = tt
  sorted-All (d ∷ ds) k = insert_sorted-All d (sorted order ds) k.0 (sorted-All ds k.1)

module _ {D : Type 0} (R : D → Type 0) (p : D → Bool) where
  first-All : (c : List D) (d : D) → All R c → first p c ≡ some d → R d
  first-All [] d h e = cc
  first-All (x ∷ c) d h e = elim (Bool-cases (p x)) [
    | inl m ↦ subst R (some-injective _ _ (rw m at e)) h.0
    | inr m ↦ first-All c d h.1 (rw m at e)
  ]

  All-matching : (c : List D) → All R c → All R (matching p c)
  All-matching [] h = tt
  All-matching (x ∷ c) h = elim (Bool-cases (p x)) [
    | inl m ↦ rw m (h.0, All-matching c h.1)
    | inr m ↦ rw m (All-matching c h.1)
  ]

  update_first-All :
      (f : D → D) (c : List D)
      → ((d : D) → p d ≡ true → R d → R (f d))
      → All R c
      → All R (update_first p f c)
  update_first-All f [] k h = tt
  update_first-All f (x ∷ c) k h = elim (Bool-cases (p x)) [
    | inl m ↦ rw m (k x m h.0, h.1)
    | inr m ↦ rw m (h.0, update_first-All f c k h.1)
  ]

  delete_first-All : (c : List D) → All R c → All R (delete_first p c)
  delete_first-All [] h = tt
  delete_first-All (x ∷ c) h = elim (Bool-cases (p x)) [
    | inl m ↦ rw m h.1
    | inr m ↦ rw m (h.0, delete_first-All c h.1)
  ]

pub listed-IsMongo : IsMongo listed
listed-IsMongo = record {
  find_one_matches = λ p c d. first_matches p c d;
  find_one-insert_new = λ p d c. first-append_new p d c;
  find_one-insert_other = λ p d c. first-append_other p d c;
  find_one-insert = λ p d c e. first-append p d c e;
  find_one-update = λ p f c. first-update p f c;
  find_one-update_other = λ p q f c. first-update_other p q f c;
  find_one-update_found = λ p q f c d. first-update_found p q f c d;
  find_matches = λ p order c. sorted-All (λ d. p d ≡ true) order _ (matching-All p c);
  All-find_one = λ R p c d. first-All R p c d;
  All-find = λ R p order c h. sorted-All R order _ (All-matching R p c h);
  documents-insert = λ d c. refl;
  All-update_one = λ R p f c. update_first-All R p f c;
  All-delete_one = λ R p c. delete_first-All R p c;
}
