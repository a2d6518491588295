-- ===== src/Assets/Schedule.antt =====
-- backend/src/assets/fixed-assets.ts: what the amounts of a schedule sum to.
use advanced_accountancy.Prelude.{ℕ, zero, suc, ◌+◌, ◌*◌, ◌≤◌, List, sum_by}
use advanced_accountancy.Prelude.Int.{pos_part, neg_part, ◌+ℤ◌}
use advanced_accountancy.Schema.{Amount, Cents}
use advanced_accountancy.Assets.{NewSchedule}

abbrev pub scheduled : List NewSchedule → Cents
scheduled = sum_by (λ n. n.amount)

-- What is accumulated after some months.
abbrev after : ℕ → Cents → Cents → Cents
after zero monthly accumulated = accumulated
after (suc rounds) monthly accumulated = after rounds monthly (accumulated +ℤ monthly)

-- Of a sum that the last month completes, the amount is within 0.51 of a hundredth.
abbrev pub IsWithin : Cents → Amount → Type 0
IsWithin c v =
    (pos_part v + 1000000 * neg_part c ≤ 1000000 * pos_part c + neg_part v + 510000)
    × (1000000 * pos_part c + neg_part v ≤ pos_part v + 1000000 * neg_part c + 510000)
