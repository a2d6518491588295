-- ===== src/Prelude/Sums.antt =====
-- Sums of integers over the rows of a table.
use mathlib.Core.Path.{◌≡◌, refl, ap, ◌∙◌}
use mathlib.Core.Logic.{inl, inr}
use mathlib.Core.Bool.{Bool}
use mathlib.Core.Option.{some}
use mathlib.Core.List.{List, [], ◌∷◌, ◌++◌, map}
use native.Mathlib.Omega.{arith}
use advanced_accountancy.Prelude.Int.{ℤ, pos, pos_part, neg_part, ◌+ℤ◌, int_laws, eq_of_parts}
use advanced_accountancy.Prelude.Tests.{Bool-cases}
use advanced_accountancy.Prelude.Lists.{find, modify_first}

shift : (x m s a b : ℤ) → m +ℤ a ≡ s +ℤ b → x +ℤ m +ℤ a ≡ x +ℤ s +ℤ b
shift x m s a b h = eq_of_parts _ _ (omega (int_laws, ap pos_part h, ap neg_part h))

module _ {ℓ} {A : Type ℓ} where
  abbrev pub sum_by : (A → ℤ) → List A → ℤ
  sum_by f [] = pos 0
  sum_by f (x ∷ xs) = f x +ℤ sum_by f xs

  pub sum_by-append :
      (f : A → ℤ) (xs ys : List A) → sum_by f (xs ++ ys) ≡ sum_by f xs +ℤ sum_by f ys
  sum_by-append f [] ys = omega int_laws
  sum_by-append f (x ∷ xs) ys = rw (sum_by-append f xs ys) (omega int_laws)

  -- Appending one row adds what it counts for.
  pub sum_by-snoc : (f : A → ℤ) (xs : List A) (x : A) → sum_by f (xs ++ x ∷ []) ≡ sum_by f xs +ℤ f x
  sum_by-snoc f xs x = rw (sum_by-append f xs (x ∷ [])) (omega int_laws)

  -- Updating one row changes the sum by the change of that row.
  pub sum_by-modify_first :
      (f : A → ℤ) (p : A → Bool) (g : A → A) (xs : List A) {a : A}
      → find p xs ≡ some a
      → sum_by f (modify_first p g xs) +ℤ f a ≡ sum_by f xs +ℤ f (g a)
  sum_by-modify_first f p g [] h = ground arith
  sum_by-modify_first f p g (x ∷ xs) {a} h = elim (Bool-cases (p x)) [
    | inl found ↦ let e : x ≡ a = ground arith in rw found (rw e (omega int_laws))
    | inr other ↦
        let ih : sum_by f (modify_first p g xs) +ℤ f a ≡ sum_by f xs +ℤ f (g a) =
          sum_by-modify_first f p g xs (ground arith) in
        rw other (shift (f x) (sum_by f (modify_first p g xs)) (sum_by f xs) (f a) (f (g a)) ih)
  ]

pub sum_by-map {ℓ κ} :
    {A : Type ℓ} {B : Type κ} (f : B → ℤ) (g : A → B) (xs : List A)
    → sum_by f (map g xs) ≡ sum_by (λ x. f (g x)) xs
sum_by-map f g [] = refl
sum_by-map f g (x ∷ xs) = ap (λ (s : ℤ). f (g x) +ℤ s) (sum_by-map f g xs)

cancel : (m s a : ℤ) → m +ℤ a ≡ s +ℤ a → m ≡ s
cancel m s a h = eq_of_parts m s (omega (int_laws, ap pos_part h, ap neg_part h))

-- An update that leaves what its row counts for leaves the sum.
pub sum_by-modify_same {ℓ} :
    {A : Type ℓ} (f : A → ℤ) (p : A → Bool) (g : A → A) (xs : List A) {a : A}
    → find p xs ≡ some a
    → f (g a) ≡ f a
    → sum_by f (modify_first p g xs) ≡ sum_by f xs
sum_by-modify_same f p g xs {a} h e =
    cancel _ _ (f a) (sum_by-modify_first f p g xs h ∙ ap (λ (x : ℤ). sum_by f xs +ℤ x) e)

-- An update of a row that counted for nothing adds what the row counts for now.
pub sum_by-modify_new {ℓ} :
    {A : Type ℓ} (f : A → ℤ) (p : A → Bool) (g : A → A) (xs : List A) {a : A}
    → find p xs ≡ some a
    → f a ≡ pos 0
    → sum_by f (modify_first p g xs) ≡ sum_by f xs +ℤ f (g a)
sum_by-modify_new f p g xs {a} h z = eq_of_parts _ _ (
    omega (
      int_laws,
      ap pos_part (sum_by-modify_first f p g xs h),
      ap neg_part (sum_by-modify_first f p g xs h),
      ap pos_part z,
      ap neg_part z,
    ))
