-- ===== src/Schema/Closeness.antt =====
-- How far what `round2` returns is from the number that it rounds.
use advanced_accountancy.Prelude.{ℕ, suc, ◌+◌, ◌*◌, ◌≤◌, ◌≡◌, arith}
use advanced_accountancy.Prelude.Int.{pos, negsuc, pos_part, neg_part, neg, eq_of_parts}
use advanced_accountancy.Schema.Units.{Cents, Amount, from_cents, round2_of, round2}
use advanced_accountancy.Schema.Doubles.{to_double, hundredfold, round_half_down}
use advanced_accountancy.Schema.Doubles.Errors.{round_half_up-CloseTo, round_half_down-CloseTo}
use advanced_accountancy.Schema.Rounding.{from_cents_parts}

-- At most 10^11 units.
abbrev pub InRange : Amount → ℕ → Type 0
InRange v unit = pos_part v + neg_part v ≤ 100000000000 * unit

-- Hundredths that are within 0.51 of what v / unit is.
abbrev pub IsClose : Cents → Amount → ℕ → Type 0
IsClose c v unit =
    (100 * (pos_part c * unit) + 10000 * neg_part v
      ≤ 10000 * pos_part v + 100 * (neg_part c * unit) + 51 * unit)
    × (10000 * pos_part v + 100 * (neg_part c * unit)
        ≤ 100 * (pos_part c * unit) + 10000 * neg_part v + 51 * unit)

neg-pos : (k : ℕ) → (pos_part (neg (pos k)) ≡ 0) × (neg_part (neg (pos k)) ≡ k)
unfolding neg
neg-pos k = ground arith

pub round2_of-IsClose :
    (v : Amount) (unit : ℕ) → 1 ≤ unit → InRange v unit → IsClose (round2_of v unit) v unit
unfolding round2_of
round2_of-IsClose (pos n) unit h range =
    let near = round_half_up-CloseTo n unit h (omega arith) in (omega arith, omega arith)
round2_of-IsClose (negsuc n) unit h range =
    let k = round_half_down (hundredfold (to_double (suc n) unit)) in
    let near = round_half_down-CloseTo (suc n) unit h (omega arith) in
    let (none, all) = neg-pos k in rw (none, all) (omega arith, omega arith)

-- Rounding an amount of at most 10^11, computed with doubles, gives hundredths that are within
-- 0.51 of a hundredth of it.
pub round2_nearest :
    (v : Amount)
    → pos_part v + neg_part v ≤ 10000000000000000000
    → let f = from_cents (round2 v) in
      (pos_part v + neg_part f ≤ pos_part f + neg_part v + 510000)
      × (pos_part f + neg_part v ≤ pos_part v + neg_part f + 510000)
unfolding round2
round2_nearest v range =
    let near = round2_of-IsClose v 100000000 (omega arith) (omega arith) in
    omega (arith, from_cents_parts (round2 v))

-- Whole hundredths are left as they are.
pub round2_whole :
    (c : Cents) → pos_part c + neg_part c ≤ 10000000000000 → round2 (from_cents c) ≡ c
round2_whole c range =
    let parts = from_cents_parts c in
    let near = round2_nearest (from_cents c) (omega (arith, parts)) in
    eq_of_parts _ _ (omega (arith, parts, near, from_cents_parts (round2 (from_cents c))))
