-- ===== src/Importing/Percentiles.antt =====
-- ml/import_intel_lab_dataset.py and ml/import_anomliot_dataset.py: `_percentile`, and the range of a
-- sensor.
use mathlib.Core.Path.{subst}
use trust_aware_self_healing.Shared.{
  ℕ, zero, suc, ◌≤◌, ◌<◌, ◌+◌, ◌*◌, ◌-◌, ◌≡◌, refl, ap, ◌∙◌, Bool, true, Option, none, some, List,
  [], ◌∷◌, length, inl, inr, Bool-cases, All, arith, ltb as ltb_ℕ, if◌then◌else◌,
}
use trust_aware_self_healing.Floats.{Floats, IsOrdered, IsNearest, of_ℕ, ltb}
use trust_aware_self_healing.Shared.Int.{ℤ, pos, pos_part}
use trust_aware_self_healing.Floats.Order.{le_of_not_le}

module _ (fl : Floats) where
  open fl use {F, leb, add}

  -- `sorted`
  abbrev pub insert : F → List F → List F
  insert x [] = x ∷ []
  insert x (y ∷ ys) = let rest = insert x ys in if leb x y then x ∷ y ∷ ys else y ∷ rest

  abbrev pub sorted : List F → List F
  sorted [] = []
  sorted (x ∷ xs) = insert x (sorted xs)

  -- `values[idx]`; none stands for `IndexError`.
  abbrev pub at : ℕ → List F → Option F
  at i [] = none
  at zero (x ∷ xs) = some x
  at (suc i) (x ∷ xs) = at i xs

  -- `min(last, max(0, rank))`; a negative whole number has no positive part.
  abbrev pub within : ℤ → ℕ → ℕ
  within rank last = if ltb_ℕ (pos_part rank) last then pos_part rank else last

  -- `int(round(pct / 100 * last))`
  abbrev pub rank_of : ℕ → ℕ → ℤ
  rank_of pct last = fl.nearest (fl.mul (fl.div (of_ℕ fl pct) (of_ℕ fl 100)) (of_ℕ fl last))

  -- The position of a percentile among n values.
  abbrev pub index : ℕ → ℕ → ℕ
  index pct n = within (rank_of pct (n - 1)) (n - 1)

  unfoldable pub percentile : List F → ℕ → Option F
  percentile values pct = at (index pct (length values)) (sorted values)

  -- `lo` and `hi` of a payload, which are rounded to three decimals.
  abbrev pub widened : Option F → Option F → Option (F × F)
  widened (some lo) (some hi) =
      some (fl.round lo 3, fl.round (if leb hi lo then add lo (of_ℕ fl 1) else hi) 3)
  widened _ _ = none

  unfoldable pub range_of : List F → Option (F × F)
  unfolding percentile
  range_of values = widened (percentile values 5) (percentile values 95)

  -- How many of the values pass the test.
  abbrev pub count_if : (F → Bool) → List F → ℕ
  count_if test [] = 0
  count_if test (x ∷ xs) = (if test x then 1 else 0) + count_if test xs

  Sorted : List F → Type 0
  Sorted [] = Unit {0}
  Sorted (x ∷ xs) = All (λ y. leb x y ≡ true) xs × Sorted xs

  module _ (laws : IsOrdered fl) where
    insert-All : (P : F → Type 0) (x : F) (ys : List F) → P x → All P ys → All P (insert x ys)
    insert-All P x [] p h = (p, tt)
    insert-All P x (y ∷ ys) p (q, h) = elim (Bool-cases (leb x y)) [
      | inl e ↦ rw e (p, (q, h))
      | inr e ↦ rw e (q, insert-All P x ys p h)
    ]

    All-below :
        (x y : F) (ys : List F)
        → leb x y ≡ true
        → All (λ z. leb y z ≡ true) ys
        → All (λ z. leb x z ≡ true) ys
    All-below x y [] h k = tt
    All-below x y (z ∷ ys) h (k, rest) = (laws.le_trans x y z h k, All-below x y ys h rest)

    insert-Sorted : (x : F) (ys : List F) → Sorted ys → Sorted (insert x ys)
    unfolding Sorted
    insert-Sorted x [] h = (tt, tt)
    insert-Sorted x (y ∷ ys) (below, h) = elim (Bool-cases (leb x y)) [
      | inl e ↦ rw e ((e, All-below x y ys e below), (below, h))
      | inr e ↦ rw e (
        insert-All (λ z. leb y z ≡ true) x ys (le_of_not_le fl laws x y e) below,
        insert-Sorted x ys h,
      )
    ]

    sorted-Sorted : (xs : List F) → Sorted (sorted xs)
    unfolding Sorted
    sorted-Sorted [] = tt
    sorted-Sorted (x ∷ xs) = insert-Sorted x (sorted xs) (sorted-Sorted xs)

    length-insert : (x : F) (ys : List F) → length (insert x ys) ≡ suc (length ys)
    length-insert x [] = refl
    length-insert x (y ∷ ys) = elim (Bool-cases (leb x y)) [
      | inl e ↦ rw e refl
      | inr e ↦ rw e (ap suc (length-insert x ys))
    ]

    length-sorted : (xs : List F) → length (sorted xs) ≡ length xs
    length-sorted [] = refl
    length-sorted (x ∷ xs) = length-insert x (sorted xs) ∙ ap suc (length-sorted xs)

    All-both : (P Q : F → Type 0) (xs : List F) → All P xs → All Q xs → All (λ x. P x × Q x) xs
    All-both P Q [] p q = tt
    All-both P Q (x ∷ xs) (p, ps) (q, qs) = ((p, q), All-both P Q xs ps qs)

    count_if-insert :
        (test : F → Bool) (x : F) (ys : List F)
        → count_if test (insert x ys) ≡ count_if test (x ∷ ys)
    count_if-insert test x [] = refl
    count_if-insert test x (y ∷ ys) = elim (Bool-cases (leb x y)) [
      | inl e ↦ rw e refl
      | inr e ↦ rw e (let h = count_if-insert test x ys in omega arith)
    ]

    count_if-sorted : (test : F → Bool) (xs : List F) → count_if test (sorted xs) ≡ count_if test xs
    count_if-sorted test [] = refl
    count_if-sorted test (x ∷ xs) =
        count_if-insert test x (sorted xs)
        ∙ ap (λ n. (if test x then 1 else 0) + n) (count_if-sorted test xs)

    none-below :
        (x : F) (ys : List F) → All (λ y. leb x y ≡ true) ys → count_if (λ y. ltb fl y x) ys ≡ 0
    none-below x [] h = refl
    none-below x (y ∷ ys) (h, k) = rw h (let rest = none-below x ys k in omega arith)

    bit_le : (b : Bool) → (if b then 1 else 0) ≤ 1
    bit_le b = ground arith

    -- Where the value at a position of an ascending list stands among the others.
    at-Sorted :
        (i : ℕ) (xs : List F) (P : F → Type 0)
        → Sorted xs
        → All P xs
        → i < length xs
        → (a : F) × (at i xs ≡ some a)
          × P a
          × (i + 1 ≤ count_if (λ x. leb x a) xs)
          × (count_if (λ x. ltb fl x a) xs ≤ i)
    unfolding Sorted
    at-Sorted i [] P h p l = absurd (omega arith)
    at-Sorted zero (x ∷ xs) P (below, h) (p, ps) l =
        let first = laws.le_refl x in
        (x, refl, p, rw first (omega arith), rw (first, none-below x xs below) (omega arith))
    at-Sorted (suc i) (x ∷ xs) P (below, h) (p, ps) l =
        let (a, e, (le, q), many, few) =
          at-Sorted i xs (λ y. (leb x y ≡ true) × P y) h (All-both _ _ xs below ps) (omega arith) in
        (a, e, q, rw le (omega arith), let one = bit_le (ltb fl x a) in omega arith)

    within-le : (r last : ℕ) → r ≤ last → within (pos r) last ≡ r
    within-le r last h = ground arith

    -- A rank that is not above n - 1 is left as it is.
    index-rank_of : (p n r : ℕ) → rank_of p n ≡ pos r → r ≤ n → index p (suc n) ≡ r
    index-rank_of p n r e h =
        let last : suc n - 1 ≡ n = omega arith in
        ap (λ k. within (rank_of p k) k) last ∙ (ap (λ q. within q n) e ∙ within-le r n h)

    percent_le : (p n r : ℕ) → p ≤ 100 → 100 * r ≤ p * n + 50 → r ≤ n
    percent_le p n r h k = grind arith

    All-every : (P : F → Type 0) (xs : List F) → ((x : F) → P x) → All P xs
    All-every P [] h = tt
    All-every P (x ∷ xs) h = (h x, All-every P xs h)

    -- With ordered numbers whose percentages are rounded to a nearest whole number, up to a bound: of
    -- one value or more, with n other values, and a percentage p of at most 100 where p * n is within
    -- the bound, there is a percentile, and its rank is a whole number r that is nearest
    -- to p * n / 100. More than r of the values are not above the percentile, and at most r of them
    -- are below it.
    pub percentile-nearest_rank :
        (bound : ℕ)
        → IsNearest fl bound
        → (v : F) (vs : List F) (p : ℕ) → p ≤ 100
        → p * length vs ≤ bound
        → (a : F) × (r : ℕ) × (percentile (v ∷ vs) p ≡ some a)
          × (100 * r ≤ p * length vs + 50)
          × (p * length vs ≤ 100 * r + 50)
          × (r + 1 ≤ count_if (λ x. leb x a) (v ∷ vs))
          × (count_if (λ x. ltb fl x a) (v ∷ vs) ≤ r)
    unfolding percentile
    percentile-nearest_rank bound nearest v vs p at_most h =
        let (r, e, low, high) = nearest.nearest-percent p (length vs) h in
        let below_all = percent_le p (length vs) r at_most low in
        let same = length-sorted (v ∷ vs) in
        let (a, found, _, many, few) =
          at-Sorted r (sorted (v ∷ vs)) _ (sorted-Sorted (v ∷ vs)) (All-every _ _ laws.le_refl)
            (omega arith) in
        let below = count_if-sorted (λ x. ltb fl x a) (v ∷ vs) in
        let not_above = count_if-sorted (λ x. leb x a) (v ∷ vs) in
        let at_rank = index-rank_of p (length vs) r e below_all in
        (
          a,
          r,
          ap (λ i. at i (sorted (v ∷ vs))) at_rank ∙ found,
          low,
          high,
          subst (λ n. r + 1 ≤ n) not_above many,
          subst (λ n. n ≤ r) below few,
        )
