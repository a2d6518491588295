-- ===== src/Schema/Doubles/Errors.antt =====
-- How far the doubles of a rounding are from the numbers that they stand for.
use native.Mathlib.Nat.{
  mul-le-mul_left, mul-le-mul_right, le_of_mul-le-mul_left, mod-add-div, mod-lt,
}
use native.Mathlib.Decide.{dec_lt}
use advanced_accountancy.Prelude.{
  refl, ℕ, zero, suc, ◌+◌, ◌-◌, ◌*◌, ◌/◌, ◌%◌, ◌≤◌, ◌<◌, ◌≡◌, ◌⊎◌, inl, inr, arith, ltb, Bool-cases,
}
use advanced_accountancy.Schema.Doubles.{
  Double, nearest, scale_for, to_double, hundredfold, round_half_up, round_half_down,
}

-- Within half of the divisor.
abbrev Within : ℕ → ℕ → ℕ → Type 0
Within m p q = (2 * m * q ≤ 2 * p + q) × (2 * p ≤ 2 * m * q + q)

nearest-Within : (p q : ℕ) → 1 ≤ q → Within (nearest p q) p q
unfolding nearest
nearest-Within p q h =
    let split = mod-add-div p q in
    let less = mod-lt p h in
    elim (Bool-cases (ltb (2 * (p % q)) q)) [
      | inl low ↦ rw low (let le : 2 * (p % q) < q = ground arith in omega arith)
      | inr high ↦ elim (Bool-cases (ltb q (2 * (p % q)))) [
        | inl above ↦ rw (high, above) (let le : q < 2 * (p % q) = ground arith in omega arith)
        | inr tie ↦
            rw (high, tie)
              (let same : 2 * (p % q) ≡ q = ground arith in
                elim (parity (p / q)) [
                  | inl even ↦ rw even (omega arith)
                  | inr odd ↦ rw odd (omega arith)
                ])
      ]
    ]
  where
    parity : (n : ℕ) → (n % 2 ≡ 0) ⊎ (n % 2 ≡ 1)
    parity n = omega arith

-- A scale doubled in every round.
grown : ℕ → ℕ → ℕ
grown zero scale = scale
grown (suc fuel) scale = grown fuel (2 * scale)

scale_for_lem :
    (fuel scale p limit : ℕ)
    → (limit ≤ p * (2 * scale_for fuel scale p limit))
      ⊎ (scale_for fuel scale p limit ≡ grown fuel scale)
unfolding scale_for grown
scale_for_lem zero scale p limit = inr refl
scale_for_lem (suc fuel) scale p limit = elim (Bool-cases (ltb (p * (2 * scale)) limit)) [
  | inl below ↦ rw below (scale_for_lem fuel (2 * scale) p limit)
  | inr reached ↦ rw reached (inl (ground arith))
]

scale_for-positive : (fuel scale p limit : ℕ) → 1 ≤ scale → 1 ≤ scale_for fuel scale p limit
unfolding scale_for
scale_for-positive zero scale p limit h = h
scale_for-positive (suc fuel) scale p limit h = elim (Bool-cases (ltb (p * (2 * scale)) limit)) [
  | inl below ↦ rw below (scale_for-positive fuel (2 * scale) p limit (omega arith))
  | inr reached ↦ rw reached h
]

-- What a double nearest to p / q is.
record Near (p q : ℕ) (d : Double) : Type 0 where
  positive : 1 ≤ d.scale
  within : Within d.mantissa (p * d.scale) (1024 * q)
  precise : (9007199254740992 * (1024 * q) ≤ p * (2 * d.scale)) ⊎ (10240000 ≤ d.scale)

to_double-Near : (p q : ℕ) → 1 ≤ q → Near p q (to_double p q)
unfolding to_double
to_double-Near p q h =
    let limit = 9007199254740992 * (1024 * q) in
    let scale = scale_for 100 1 p limit in
    record {
      positive = scale_for-positive 100 1 p limit (omega arith);
      within = nearest-Within (p * scale) (1024 * q) (omega arith);
      precise = elim (scale_for_lem 100 1 p limit) [
        | inl reached ↦ inl reached
        | inr stopped ↦ inr (rw stopped (unfold grown in omega arith))
      ];
    }

-- The first scale is large enough for a hundredth of a hundredth.
first_scale :
    (n q scale : ℕ)
    → 1 ≤ q
    → n ≤ 100000000000 * q
    → (9007199254740992 * (1024 * q) ≤ n * (2 * scale)) ⊎ (10240000 ≤ scale)
    → 10240000 ≤ scale
first_scale n q scale h bound (inr large) = large
first_scale n q scale h bound (inl reached) =
    let more : n * (2 * scale) ≤ 100000000000 * q * (2 * scale) =
      mul-le-mul_right (2 * scale) bound in
    let most : q * 92233720 ≤ q * (2 * scale) = omega arith in
    let least : 92233720 ≤ 2 * scale = le_of_mul-le-mul_left most h in omega arith

second_scale :
    (n q m scale next : ℕ)
    → 1 ≤ q
    → 1 ≤ scale
    → n ≤ 100000000000 * q
    → Within m (n * scale) (1024 * q)
    → (9007199254740992 * (1024 * scale) ≤ 100 * (1024 * m) * (2 * next)) ⊎ (10240000 ≤ next)
    → 102400 ≤ next
second_scale n q m scale next h hs bound (low, high) (inr large) = omega arith
second_scale n q m scale next h hs bound (low, high) (inl reached) = elim (dec_lt next 102400) [
  | no large ↦ omega arith
  | yes small ↦
      let more : n * scale ≤ 100000000000 * q * scale = mul-le-mul_right scale bound in
      let mantissa : q * (2048 * m) ≤ q * (200000000000 * scale + 1024) = omega arith in
      let m_bound : 2048 * m ≤ 200000000000 * scale + 1024 = le_of_mul-le-mul_left mantissa h in
      let most : m * next ≤ m * 102400 = mul-le-mul_left m (omega arith) in absurd (omega arith)
]

module _ (n q scale m next k c : ℕ) (h : 1 ≤ q) (fine : 10240000 ≤ scale) (finer : 102400 ≤ next)
    (first : Within m (n * scale) (1024 * q))
    (second : Within k (100 * (1024 * m) * next) (1024 * scale)) where
  some_scale : 1 ≤ 200 * (scale * next)
  some_scale =
      let some : scale * 1 ≤ scale * next = mul-le-mul_left scale (omega arith) in omega arith

  coarse : q * next * 10240000 ≤ q * next * scale
  coarse = mul-le-mul_left (q * next) fine

  coarser : q * scale * 102400 ≤ q * scale * next
  coarser = mul-le-mul_left (q * scale) finer

  rounded-below : 2 * next * c ≤ 2 * (1024 * k) + next → 100 * (c * q) ≤ 10000 * n + 51 * q
  rounded-below below =
      let step = mul-le-mul_left (q * scale) below in
      let product = mul-le-mul_left q second.0 in
      let value = mul-le-mul_left (100 * next) first.0 in
      le_of_mul-le-mul_left {k = 2 * (scale * next)} (omega (arith, coarse, coarser))
        (omega (arith, some_scale))

  rounded-above : 2 * (1024 * k) ≤ 2 * next * c + next → 10000 * n ≤ 100 * (c * q) + 51 * q
  rounded-above above =
      let step = mul-le-mul_left (q * scale) above in
      let product = mul-le-mul_left q second.1 in
      let value = mul-le-mul_left (100 * next) first.1 in
      le_of_mul-le-mul_left {k = 2 * (scale * next)} (omega (arith, coarse, coarser))
        (omega (arith, some_scale))

half_up :
    (x d : ℕ)
    → 1 ≤ d
    → (2 * d * ((x + d) / (2 * d)) ≤ x + d) × (x ≤ 2 * d * ((x + d) / (2 * d)) + d)
half_up x d h =
    let split = mod-add-div (x + d) (2 * d) in
    let less = mod-lt (x + d) {m = 2 * d} (omega arith) in (omega arith, omega arith)

half_down :
    (x d : ℕ)
    → 1 ≤ d
    → (2 * d * ((x + (d - 1)) / (2 * d)) ≤ x + d) × (x ≤ 2 * d * ((x + (d - 1)) / (2 * d)) + d)
half_down x d h =
    let split = mod-add-div (x + (d - 1)) (2 * d) in
    let less = mod-lt (x + (d - 1)) {m = 2 * d} (omega arith) in (omega arith, omega arith)

-- Within 0.51 of a hundredth of n / q, which is at most 10^11.
abbrev pub CloseTo : ℕ → ℕ → ℕ → Type 0
CloseTo c n q = (100 * (c * q) ≤ 10000 * n + 51 * q) × (10000 * n ≤ 100 * (c * q) + 51 * q)

close :
    (n q c : ℕ)
    → 1 ≤ q
    → n ≤ 100000000000 * q
    → let d = hundredfold (to_double n q) in
      (2 * d.scale * c ≤ 2 * (1024 * d.mantissa) + d.scale)
        × (2 * (1024 * d.mantissa) ≤ 2 * d.scale * c + d.scale)
      → CloseTo c n q
unfolding hundredfold
close n q c h bound rounds =
    let d = to_double n q in
    let e = hundredfold d in
    let a = to_double-Near n q h in
    let b = to_double-Near (100 * (1024 * d.mantissa)) d.scale a.positive in
    let fine = first_scale n q d.scale h bound a.precise in
    let finer = second_scale n q d.mantissa d.scale e.scale h a.positive bound a.within b.precise in
    (
      rounded-below n q d.scale d.mantissa e.scale e.mantissa c h fine finer a.within b.within
          rounds.0,
      rounded-above n q d.scale d.mantissa e.scale e.mantissa c h fine finer a.within b.within
          rounds.1,
    )

hundredfold-positive : (n q : ℕ) → 1 ≤ q → 1 ≤ (hundredfold (to_double n q)).scale
unfolding hundredfold
hundredfold-positive n q h =
    (to_double-Near (100 * (1024 * (to_double n q).mantissa)) (to_double n q).scale
      (to_double-Near n q h).positive).positive

pub round_half_up-CloseTo :
    (n q : ℕ)
    → 1 ≤ q
    → n ≤ 100000000000 * q
    → CloseTo (round_half_up (hundredfold (to_double n q))) n q
unfolding round_half_up
round_half_up-CloseTo n q h bound = close n q _ h bound (half_up _ _ (hundredfold-positive n q h))

pub round_half_down-CloseTo :
    (n q : ℕ)
    → 1 ≤ q
    → n ≤ 100000000000 * q
    → CloseTo (round_half_down (hundredfold (to_double n q))) n q
unfolding round_half_down
round_half_down-CloseTo n q h bound =
    close n q _ h bound (half_down _ _ (hundredfold-positive n q h))
