-- ===== src/Accounting/Numbering/Format.antt =====
-- `${prefix}${n.toString().padStart(6, '0')}` of numbering.service.ts, and its inverse.
use advanced_accountancy.Prelude.{
  ℕ, zero, suc, ◌+◌, ◌-◌, ◌*◌, ◌/◌, ◌%◌, ◌<◌, ◌≡◌, refl, sym, ap, ◌∙◌, inl, inr, [], ◌∷◌, ◌++◌,
  arith, ltb, if◌then◌else◌, length, replicate, Bool-cases,
}
use advanced_accountancy.Prelude.Text.{Text, codes}

-- The decimal digits of `n` in front of `acc`; the fuel bounds their number.
digits_before : ℕ → ℕ → Text → Text
digits_before zero n acc = acc
digits_before (suc fuel) n acc =
    let rest = digits_before fuel (n / 10) ((n % 10 + 48) ∷ acc) in
    if ltb n 10 then (n + 48) ∷ acc else rest

-- `n.toString()`; a number has at most as many digits as its successor.
unfoldable pub to_string : ℕ → Text
unfolding digits_before
to_string n = digits_before (suc n) n []

-- `t.padStart(width, '0')`
unfoldable pub pad_start : ℕ → Text → Text
pad_start width t = replicate (width - length t) 48 ++ t

unfoldable pub format_number : Text → ℕ → Text
unfolding to_string pad_start
format_number prefix n = prefix ++ pad_start 6 (to_string n)

-- The number that decimal digits stand for, read behind the value `v`.
unfoldable pub read_from : ℕ → Text → ℕ
read_from v [] = v
read_from v (c ∷ t) = read_from (v * 10 + (c - 48)) t

read-digits_before :
    (fuel n : ℕ) (acc : Text) → n < fuel → read_from 0 (digits_before fuel n acc) ≡ read_from n acc
unfolding digits_before read_from
read-digits_before zero n acc h = elim h [ ]
read-digits_before (suc fuel) n acc h = elim (Bool-cases (ltb n 10)) [
  | inl last ↦ rw last (ap (λ (v : ℕ). read_from v acc) (omega arith))
  | inr more ↦
      let smaller : n / 10 < fuel = ground arith in
      let whole : n / 10 * 10 + (n % 10 + 48 - 48) ≡ n = omega arith in
      rw more (
        read-digits_before fuel (n / 10) ((n % 10 + 48) ∷ acc) smaller
        ∙ ap (λ (v : ℕ). read_from v acc) whole)
]

read-zeros : (k : ℕ) (t : Text) → read_from 0 (replicate k 48 ++ t) ≡ read_from 0 t
unfolding read_from
read-zeros zero t = refl
read-zeros (suc k) t = read-zeros k t

-- The fuel suffices: reading the padded digits gives the number back.
read-pad_start : (n : ℕ) → read_from 0 (pad_start 6 (to_string n)) ≡ n
unfolding pad_start to_string
read-pad_start n =
    read-zeros _ (digits_before (suc n) n [])
    ∙ read-digits_before (suc n) n [] (omega arith)
    ∙ (unfold read_from in refl)

drop_prefix : (p a b : Text) → p ++ a ≡ p ++ b → a ≡ b
drop_prefix [] a b h = h
drop_prefix (c ∷ p) a b h = drop_prefix p a b (cc)

-- Under one prefix, distinct numbers have distinct texts, beyond six digits too.
pub format_number-injective :
    (prefix : Text) (m n : ℕ) → format_number prefix m ≡ format_number prefix n → m ≡ n
unfolding format_number
format_number-injective prefix m n h =
    sym (read-pad_start m) ∙ ap (read_from 0) (drop_prefix prefix _ _ h) ∙ read-pad_start n

format_seven : format_number (codes "JE-") 7 ≡ codes "JE-000007"
unfolding format_number
format_seven = refl

format_wide : format_number (codes "JE-") 1234567 ≡ codes "JE-1234567"
unfolding format_number
format_wide = refl
