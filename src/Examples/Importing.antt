-- ===== src/Examples/Importing.antt =====
-- The import of a file on concrete lines.
use trust_aware_self_healing.Shared.{
  ℕ, ◌+◌, ◌*◌, ◌≤◌, length, ◌≡◌, refl, Bool, true, ◌==◌, Option, none, some, List, [], ◌∷◌, arith,
}
use trust_aware_self_healing.Importing.Scan.{turn, load_txt}
use trust_aware_self_healing.Shared.Int.{ℤ, leb_ℤ}
use trust_aware_self_healing.Floats.Fixed.{fixed, fixed-IsOrdered, fixed-IsNearest}
use trust_aware_self_healing.Floats.{ltb}
use trust_aware_self_healing.Examples.Database.{units}
use trust_aware_self_healing.Importing.Percentiles.{
  percentile, range_of, count_if, percentile-nearest_rank,
}
use trust_aware_self_healing.Importing.EarlyStop.{scan_all, load_txt-scan_all}

abbrev same_number : ℕ → ℕ → Bool
same_number a b = a == b

same_number_lem : (a b : ℕ) → same_number a b ≡ true → a ≡ b
same_number_lem a b h = ground arith

-- A line is malformed, or has a mote and a row.
abbrev row : Option (ℕ × ℕ) → Option (ℕ × ℕ)
row line = line

-- The third mote comes too late, and the loop stops at the fourth row of motes 1 and 2.
abbrev lines : List (Option (ℕ × ℕ))
lines =
    some (1, 10)
    ∷ none
    ∷ some (2, 20)
    ∷ some (3, 30)
    ∷ some (1, 11)
    ∷ some (1, 12)
    ∷ some (2, 21)
    ∷ some (1, 13)
    ∷ none
    ∷ []

loaded :
    load_txt same_number true 2 2 row [] lines ≡ ((1, 10 ∷ 11 ∷ []) ∷ (2, 20 ∷ 21 ∷ []) ∷ [], 1)
unfolding load_txt turn
loaded = refl

load_txt-scan_all_example :
    (load_txt same_number true 2 2 row [] lines).0
    ≡ (scan_all same_number true 2 2 row lines
        (record { rows_by_mote = []; n_malformed = 0; selected_motes = [] })).rows_by_mote
load_txt-scan_all_example = load_txt-scan_all same_number same_number_lem true 2 2 row [] lines

abbrev temperatures : List ℤ
temperatures = units 10 ∷ units 20 ∷ []

percentile-nearest_rank_example :
    (a : ℤ) × (r : ℕ) × (percentile fixed (units 30 ∷ temperatures) 40 ≡ some a)
    × (100 * r ≤ 40 * length temperatures + 50)
    × (40 * length temperatures ≤ 100 * r + 50)
    × (r + 1 ≤ count_if fixed (λ x. leb_ℤ x a) (units 30 ∷ temperatures))
    × (count_if fixed (λ x. ltb fixed x a) (units 30 ∷ temperatures) ≤ r)
percentile-nearest_rank_example =
    percentile-nearest_rank fixed fixed-IsOrdered 1000 (fixed-IsNearest 1000) (units 30)
      temperatures 40 (omega arith) (omega arith)

measured : range_of fixed (units 30 ∷ temperatures) ≡ some (units 10, units 30)
unfolding range_of
measured = refl
