-- ===== src/Floats/Order.antt =====
-- What `max` and `min` do in the order of floats.
use trust_aware_self_healing.Shared.{◌≡◌, true, false, arith}
use trust_aware_self_healing.Floats.Spec.{Floats, IsOrdered, max, min}

module _ (fl : Floats) (laws : IsOrdered fl) where
  open fl use {F, leb}
  open laws use {le_refl, le_trans, le_total}

  pub le-max_left : (x y : F) → leb x (max fl x y) ≡ true
  le-max_left x y = ground (arith, le_refl x, le_total x y)

  pub le-max_right : (x y : F) → leb y (max fl x y) ≡ true
  le-max_right x y = ground (arith, le_refl y)

  pub max-le : (x y z : F) → leb x z ≡ true → leb y z ≡ true → leb (max fl x y) z ≡ true
  max-le x y z h k = ground arith

  pub min-le_left : (x y : F) → leb (min fl x y) x ≡ true
  min-le_left x y = ground (arith, le_refl x, le_total x y)

  pub min-le_right : (x y : F) → leb (min fl x y) y ≡ true
  min-le_right x y = ground (arith, le_refl y)

  pub le-min : (x y z : F) → leb z x ≡ true → leb z y ≡ true → leb z (min fl x y) ≡ true
  le-min x y z h k = ground arith

  -- Of two numbers the one is below the other, or it is not.
  pub le_of_not_le : (x y : F) → leb x y ≡ false → leb y x ≡ true
  le_of_not_le x y h = ground (arith, le_total x y)
