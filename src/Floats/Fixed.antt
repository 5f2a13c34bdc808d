-- ===== src/Floats/Fixed.antt =====
-- A number type that meets the laws of `Floats`: thousandths, as whole numbers. It stands for
-- `float` in the tests. `pstdev` is the mean distance from the mean, `sin` and `cos` are 0, and `round`
-- to three places changes nothing.
use trust_aware_self_healing.Shared.{
  ℕ, ◌≡◌, refl, ap, ◌∙◌, ◌+◌, ◌*◌, ◌/◌, ◌^◌, List, [], ◌∷◌, map, arith, length, if◌then◌else◌,
}
use trust_aware_self_healing.Shared.Int.{
  ℤ, pos, sub_ℕ, pos_part, neg_part, ◌+ℤ◌, ◌-ℤ◌, scaled_mul, scaled_div, leb_ℤ, leb_ℤ-refl,
  leb_ℤ-trans, leb_ℤ-total, -ℤ-le, le-+ℤ,
}
use trust_aware_self_healing.Floats.Spec.{Floats, IsOrdered, IsExact, IsNearest}

abbrev pub total : List ℤ → ℤ
total [] = pos 0
total (x ∷ xs) = x +ℤ total xs

abbrev pub mean : List ℤ → ℤ
mean xs = scaled_div 1 (total xs) (pos (length xs))

abbrev pub distance : ℤ → ℤ → ℤ
distance a b = if leb_ℤ a b then b -ℤ a else a -ℤ b

abbrev pub mean_distance : List ℤ → ℤ
mean_distance xs = mean (map (distance (mean xs)) xs)

-- The nearest whole number, a half away from 0.
abbrev pub whole : ℤ → ℤ
whole x = sub_ℕ ((pos_part x + 500) / 1000) ((neg_part x + 500) / 1000)

abbrev pub fixed : Floats
fixed = record {
  F = ℤ;
  leb = leb_ℤ;
  add = ◌+ℤ◌;
  sub = ◌-ℤ◌;
  mul = scaled_mul 1000;
  div = scaled_div 1000;
  literal = λ n k. pos (n * 1000 / 10 ^ k);
  fmean = mean;
  pstdev = mean_distance;
  sin = λ _. pos 0;
  cos = λ _. pos 0;
  pi = pos 3142;
  round = λ x n. x;
  nearest = whole;
}

pub fixed-IsOrdered : IsOrdered fixed
fixed-IsOrdered = record {
  le_refl = leb_ℤ-refl;
  le_trans = leb_ℤ-trans;
  le_total = leb_ℤ-total;
  sub-le = -ℤ-le;
  le-add = le-+ℤ;
}

pub fixed-IsExact : (bound : ℕ) → IsExact fixed bound
fixed-IsExact bound = record {
  leb-of_ℕ = λ m n h k. ground arith;
  add-of_ℕ = λ m n h. ground arith;
  sub-of_ℕ = λ m n h k. ground arith;
  sub-of_ℕ_neg = λ m n h k. ground arith;
}

sub_ℕ-pos : (a b c : ℕ) → a ≡ c → b ≡ 0 → sub_ℕ a b ≡ pos c
sub_ℕ-pos a b c h k = ground arith

scaled_div-pos : (a b : ℕ) → scaled_div 1000 (pos a) (pos b) ≡ pos (a * 1000 / b)
scaled_div-pos a b = sub_ℕ-pos _ _ _ (omega arith) (omega arith)

scaled_mul-pos : (a b : ℕ) → scaled_mul 1000 (pos a) (pos b) ≡ pos (a * b / 1000)
scaled_mul-pos a b = sub_ℕ-pos _ _ _ (omega arith) (omega arith)

tenfold : (p : ℕ) → p * 1000 / 10 ^ 0 * 1000 / 100_000 ≡ 10 * p
tenfold p = omega arith

product : (p m n : ℕ) → n ≡ 1000 * m → 10 * p * n / 1000 ≡ 10 * (p * m)
product p m n h =
    let scaled : 10 * p * n ≡ 1000 * (10 * (p * m)) = ap (λ x. 10 * p * x) h ∙ omega arith in
    omega arith

fixed-percent :
    (p m : ℕ)
    → scaled_mul 1000
        (scaled_div 1000 (pos (p * 1000 / 10 ^ 0)) (pos (100 * 1000 / 10 ^ 0)))
        (pos (m * 1000 / 10 ^ 0))
      ≡ pos (10 * (p * m))
fixed-percent p m =
    ap (λ q. scaled_mul 1000 q (pos (m * 1000 / 10 ^ 0)))
      (scaled_div-pos (p * 1000 / 10 ^ 0) (100 * 1000 / 10 ^ 0) ∙ ap pos (tenfold p))
    ∙ (scaled_mul-pos (10 * p) (m * 1000 / 10 ^ 0) ∙ ap pos (product p m _ (omega arith)))

pub fixed-IsNearest : (bound : ℕ) → IsNearest fixed bound
fixed-IsNearest bound = record {
  nearest-percent = λ p m h. (
    (10 * (p * m) + 500) / 1000,
    ap whole (fixed-percent p m) ∙ sub_ℕ-pos _ _ _ refl refl,
    omega arith,
    omega arith,
  );
}
