-- ===== src/Schema/Doubles.antt =====
-- The doubles that `round2` of backend/src/accounting/tax-rate.util.ts computes with: 53 bits of
-- mantissa, each operation rounded to the nearest, a tie to the even mantissa. Magnitudes below 2^63
-- and from 2^-37 on have their exponent here, which the amounts of the columns do.
pub mod Errors
use advanced_accountancy.Prelude.{ℕ, zero, suc, ◌+◌, ◌-◌, ◌*◌, ◌/◌, ◌%◌, ltb, if◌then◌else◌}

-- The magnitude `mantissa * 1024 / scale`; the scale is a power of 2.
pub record Double : Type 0 where
  pub mantissa : ℕ
  pub scale : ℕ

-- The natural number nearest to p / q, a tie to the even one.
unfoldable pub nearest : ℕ → ℕ → ℕ
nearest p q =
    let m = p / q in
    let twice = 2 * (p % q) in if ltb twice q then m else (if ltb q twice then m + 1 else m + m % 2)

-- Doubles the scale while the mantissa, p * scale / (1024 * q), stays below 2^53; the limit is
-- 2^53 * (1024 * q). Of a p that is not 0 and a q up to 2^37 it stops within 100 rounds.
unfoldable pub scale_for : ℕ → ℕ → ℕ → ℕ → ℕ
scale_for zero scale p limit = scale
scale_for (suc fuel) scale p limit =
    let further = scale_for fuel (2 * scale) p limit in
    if ltb (p * (2 * scale)) limit then further else scale

-- The double nearest to p / q.
unfoldable pub to_double : ℕ → ℕ → Double
to_double p q =
    let scale = scale_for 100 1 p (9007199254740992 * (1024 * q)) in
    record { mantissa = nearest (p * scale) (1024 * q); scale = scale }

-- `value * 100`
unfoldable pub hundredfold : Double → Double
hundredfold d = to_double (100 * (1024 * d.mantissa)) d.scale

-- `Math.round` of a positive number: a half goes up.
unfoldable pub round_half_up : Double → ℕ
round_half_up d = (2 * (1024 * d.mantissa) + d.scale) / (2 * d.scale)

-- The magnitude of `Math.round` of a negative number: a half goes to 0.
unfoldable pub round_half_down : Double → ℕ
round_half_down d = (2 * (1024 * d.mantissa) + (d.scale - 1)) / (2 * d.scale)
