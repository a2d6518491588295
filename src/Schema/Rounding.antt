-- ===== src/Schema/Rounding.antt =====
-- The roundings of Units: what is a whole number of hundredths is stored exactly.
use advanced_accountancy.Prelude.{◌+◌, ◌*◌, ◌/◌, ◌≡◌, arith, ap}
use advanced_accountancy.Prelude.Int.{pos, negsuc, pos_part, neg_part, ◌+ℤ◌, int_laws, eq_of_parts}
use advanced_accountancy.Schema.Units.{Cents, from_cents, to_cents}

-- A stored number is read and stored again unchanged.
pub to_cents-from_cents : (c : Cents) → to_cents (from_cents c) ≡ c
unfolding to_cents from_cents
to_cents-from_cents (pos n) = ap pos (omega arith)
to_cents-from_cents (negsuc n) =
    let m : (n * 1000000 + 999999 + 1 + 500000) / 1000000 ≡ n + 1 = omega arith in
    rw m (ground arith)

pub from_cents_parts :
    (c : Cents)
    → (pos_part (from_cents c) ≡ 1000000 * pos_part c)
      × (neg_part (from_cents c) ≡ 1000000 * neg_part c)
unfolding from_cents
from_cents_parts (pos n) = omega arith
from_cents_parts (negsuc n) = omega arith

pub from_cents-add : (a b : Cents) → from_cents (a +ℤ b) ≡ from_cents a +ℤ from_cents b
from_cents-add a b =
    eq_of_parts _ _
      (omega (int_laws, from_cents_parts (a +ℤ b), from_cents_parts a, from_cents_parts b))
