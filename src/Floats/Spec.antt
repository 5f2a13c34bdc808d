-- ===== src/Floats/Spec.antt =====
-- Python's `float`, its operators, and the functions of `math` and `statistics` that the backend
-- calls. The type is a parameter of the development. Comparisons are those of numbers: NaN, which
-- compares false with everything, is outside the laws of `IsOrdered`.
use trust_aware_self_healing.Shared.{
  ℕ, ◌≤◌, ◌-◌, ◌+◌, ◌≡◌, Bool, true, not, ◌&&◌, ◌⊎◌, List, leb as leb_ℕ, if◌then◌else◌, ◌*◌,
}
use trust_aware_self_healing.Shared.Int.{ℤ, pos}

pub record Floats : Type 1 where
  pub F : Type 0
  pub leb : F → F → Bool
  pub add : F → F → F
  pub sub : F → F → F
  pub mul : F → F → F
  pub div : F → F → F
  -- the literal n / 10 ^ k
  pub literal : ℕ → ℕ → F
  pub fmean : List F → F
  pub pstdev : List F → F
  pub sin : F → F
  pub cos : F → F
  pub pi : F
  -- `round(x, n)`
  pub round : F → ℕ → F
  -- `int(round(x))`
  pub nearest : F → ℤ

module _ (fl : Floats) where
  open fl use {F, leb, sub, literal}

  -- The whole number n as a float.
  abbrev pub of_ℕ : ℕ → F
  of_ℕ n = literal n 0

  -- `x < y`
  abbrev pub ltb : F → F → Bool
  ltb x y = not (leb y x)

  -- `x == y`
  abbrev pub eqb : F → F → Bool
  eqb x y = leb x y && leb y x

  -- The builtins `max` and `min` of two arguments: the first, unless the second is beyond it.
  abbrev pub max : F → F → F
  max x y = if ltb x y then y else x

  abbrev pub min : F → F → F
  min x y = if ltb y x then y else x

  abbrev pub abs : F → F
  abs x = if ltb x (of_ℕ 0) then sub (of_ℕ 0) x else x

  infix 50 ◌≼◌
  abbrev pub ◌≼◌ : F → F → Type 0
  x ≼ y = leb x y ≡ true

  -- What IEEE 754 gives for numbers that are not NaN: a total order, and rounding that is monotone.
  pub record IsOrdered : Type 0 where
    pub le_refl : (x : F) → leb x x ≡ true
    pub le_trans : (x y z : F) → leb x y ≡ true → leb y z ≡ true → leb x z ≡ true
    pub le_total : (x y : F) → (leb x y ≡ true) ⊎ (leb y x ≡ true)
    pub sub-le : (x p : F) → leb (of_ℕ 0) p ≡ true → leb (sub x p) x ≡ true
    pub le-add : (x g : F) → leb (of_ℕ 0) g ≡ true → leb x (fl.add x g) ≡ true

  -- Whole numbers up to `bound` (2 ^ 53 for a double) are exact.
  pub record IsExact (bound : ℕ) : Type 0 where
    pub leb-of_ℕ : (m n : ℕ) → m ≤ bound → n ≤ bound → leb (of_ℕ m) (of_ℕ n) ≡ leb_ℕ m n
    pub add-of_ℕ : (m n : ℕ) → m + n ≤ bound → fl.add (of_ℕ m) (of_ℕ n) ≡ of_ℕ (m + n)
    pub sub-of_ℕ : (m n : ℕ) → n ≤ m → m ≤ bound → sub (of_ℕ m) (of_ℕ n) ≡ of_ℕ (m - n)
    -- a difference below zero is below every whole number
    pub sub-of_ℕ_neg : (m n : ℕ) → m ≤ n → n ≤ bound → leb (sub (of_ℕ m) (of_ℕ n)) (of_ℕ 0) ≡ true

  -- Percentages: where the product is at most `bound`, p / 100 * m is computed to less than a
  -- hundredth, so that it is rounded to a whole number that is nearest to it, whichever way a half
  -- goes.
  pub record IsNearest (bound : ℕ) : Type 0 where
    pub nearest-percent :
        (p m : ℕ)
        → p * m ≤ bound
        → (r : ℕ) × (fl.nearest (fl.mul (fl.div (of_ℕ p) (of_ℕ 100)) (of_ℕ m)) ≡ pos r)
          × (100 * r ≤ p * m + 50)
          × (p * m ≤ 100 * r + 50)
