-- ===== src/Shared/Int.antt =====
-- Signed whole numbers over the native ℕ; `negsuc n` is -(n + 1).
use Prim.Native.Nat.{ℕ, suc, compare, Ordering, ◌+◌, ◌-◌, ◌*◌, ◌/◌}
use mathlib.Core.Path.{◌≡◌}
use mathlib.Core.Logic.{◌⊎◌}
use mathlib.Core.Bool.{Bool, true, false}
use native.Mathlib.Omega.{arith}

abbrev pub at_most : ℕ → ℕ → Bool
at_most a b = elim (compare a b) [ Ordering.gt ↦ false | _ ↦ true ]

pub data ℤ : Type 0 where
  pos : ℕ → ℤ
  negsuc : ℕ → ℤ

abbrev pub pos_part : ℤ → ℕ
pos_part (pos n) = n
pos_part (negsuc n) = 0

abbrev pub neg_part : ℤ → ℕ
neg_part (pos n) = 0
neg_part (negsuc n) = suc n

-- a - b, as an integer.
abbrev pub sub_ℕ : ℕ → ℕ → ℤ
sub_ℕ a b = elim (at_most b a) [ true ↦ pos (a - b) | false ↦ negsuc (b - a - 1) ]

infixl 65 ◌+ℤ◌ ◌-ℤ◌
abbrev pub ◌+ℤ◌ : ℤ → ℤ → ℤ
a +ℤ b = sub_ℕ (pos_part a + pos_part b) (neg_part a + neg_part b)

abbrev pub ◌-ℤ◌ : ℤ → ℤ → ℤ
a -ℤ b = sub_ℕ (pos_part a + neg_part b) (neg_part a + pos_part b)

-- a * b / n and a * n / b, rounded towards zero.
abbrev pub scaled_mul : ℕ → ℤ → ℤ → ℤ
scaled_mul n a b =
    sub_ℕ ((pos_part a * pos_part b + neg_part a * neg_part b) / n)
      ((pos_part a * neg_part b + neg_part a * pos_part b) / n)

abbrev pub scaled_div : ℕ → ℤ → ℤ → ℤ
scaled_div n a b =
    sub_ℕ (pos_part a * n / pos_part b + neg_part a * n / neg_part b)
      (pos_part a * n / neg_part b + neg_part a * n / pos_part b)

abbrev pub leb_ℤ : ℤ → ℤ → Bool
leb_ℤ a b = at_most (pos_part a + neg_part b) (pos_part b + neg_part a)

pub leb_ℤ-refl : (a : ℤ) → leb_ℤ a a ≡ true
leb_ℤ-refl a = ground arith

pub leb_ℤ-trans : (a b c : ℤ) → leb_ℤ a b ≡ true → leb_ℤ b c ≡ true → leb_ℤ a c ≡ true
leb_ℤ-trans a b c h k = ground arith

pub leb_ℤ-total : (a b : ℤ) → (leb_ℤ a b ≡ true) ⊎ (leb_ℤ b a ≡ true)
leb_ℤ-total a b = grind arith

pub -ℤ-le : (a b : ℤ) → leb_ℤ (pos 0) b ≡ true → leb_ℤ (a -ℤ b) a ≡ true
-ℤ-le a b h = ground arith

pub le-+ℤ : (a b : ℤ) → leb_ℤ (pos 0) b ≡ true → leb_ℤ a (a +ℤ b) ≡ true
le-+ℤ a b h = ground arith
