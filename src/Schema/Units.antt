-- ===== src/Schema/Units.antt =====
-- Identifiers, days and the three scales of numbers in schema.prisma and tax-rate.util.ts.
use advanced_accountancy.Prelude.{ℕ, suc, ◌+◌, ◌-◌, ◌*◌, ◌/◌, leb, if◌then◌else◌}
use advanced_accountancy.Prelude.Int.{ℤ, pos, negsuc, neg}
use advanced_accountancy.Schema.Doubles.{to_double, hundredfold, round_half_up, round_half_down}

-- A row's id: only compared, and drawn fresh.
abbrev pub Uuid : Type 0
Uuid = ℕ

-- A `Date` column: the days since the day before 1 January of year 1.
abbrev pub Day : Type 0
Day = ℕ

-- A decimal column of scale 2, in hundredths.
abbrev pub Cents : Type 0
Cents = ℤ

-- A decimal column of scale 4, in ten-thousandths.
abbrev pub Quantity : Type 0
Quantity = ℤ

-- A number that a service computes with, in units of 10^-8: the product of two columns is exact.
abbrev pub Amount : Type 0
Amount = ℤ

-- `Number(column)` of a column in hundredths.
unfoldable pub from_cents : Cents → Amount
from_cents (pos n) = pos (n * 1000000)
from_cents (negsuc n) = negsuc (n * 1000000 + 999999)

-- What a column of scale 2 stores of a number: a half goes away from zero.
unfoldable pub to_cents : Amount → Cents
to_cents (pos n) = pos ((n + 500000) / 1000000)
to_cents (negsuc n) =
    let m = (n + 1 + 500000) / 1000000 in if leb 1 m then negsuc (m - 1) else pos 0

-- `Math.round(value * 100) / 100` of the double that is nearest to value / unit. What it returns is
-- stored in hundredths, which the division by 100 and the column's own rounding leave as they are.
unfoldable pub round2_of : ℤ → ℕ → Cents
round2_of (pos n) unit = pos (round_half_up (hundredfold (to_double n unit)))
round2_of (negsuc n) unit = neg (pos (round_half_down (hundredfold (to_double (suc n) unit))))

-- `round2(value)` of an amount.
unfoldable pub round2 : Amount → Cents
round2 value = round2_of value 100000000
