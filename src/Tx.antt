-- ===== src/Tx.antt =====
-- A database transaction (common/prisma/tenant-prisma.service.ts): a step on the state that returns
-- a value and the new state, or throws. What throws has no new state: the database rolls back.
pub mod Keeps
pub mod Ends
pub mod Commits
pub mod Requests
use advanced_accountancy.Prelude.{Bool, Option, none, some, ◌≡◌, refl, if◌then◌else◌}

-- One constructor for each exception that the services throw, and for those of the database.
pub data Error : Type 0 where
  no_posting_rule no_period period_not_open rule_unbalanced : Error
  entry_not_found not_posted no_open_period no_control_account missing_override : Error
  foreign_override unknown_resolver entry_unbalanced two_sided_line wrong_status : Error
  not_found bad_quantity insufficient_stock nonpositive_amount no_bank_account : Error
  record_missing immutable_row no_employees no_salary_structures nothing_due : Error
  no_companies no_exchange_rate already_final unmatched_transactions no_suggestion : Error
  forbidden not_authenticated duplicate_row : Error

pub data Result {ℓ} (A : Type ℓ) : Type ℓ where
  ok : A → Result A
  err : Error → Result A

abbrev pub Tx {ℓ} : Type ℓ → Type ℓ → Type ℓ
Tx S A = S → Result (A × S)

module _ {ℓ} {S A : Type ℓ} where
  abbrev pub pure : A → Tx S A
  pure a s = ok (a, s)

  abbrev pub throw : Error → Tx S A
  throw e s = err e

  abbrev pub gets : (S → A) → Tx S A
  gets f s = ok (f s, s)

  abbrev pub or_throw : Option A → Error → Tx S A
  or_throw none e = throw e
  or_throw (some a) e = pure a

module _ {ℓ} {S A B : Type ℓ} where
  abbrev pub continue : Result (A × S) → (A → Tx S B) → Result (B × S)
  continue (ok (a, s)) f = f a s
  continue (err e) f = err e

  infixl 5 ◌>>=◌ ◌>>◌
  unfoldable pub ◌>>=◌ : Tx S A → (A → Tx S B) → Tx S B
  ◌>>=◌ m f s = continue (m s) f

  abbrev pub ◌>>◌ : Tx S A → Tx S B → Tx S B
  m >> k = m >>= λ _. k

  -- A transaction that commits has committed each of its steps.
  pub >>=-eq-ok :
      (m : Tx S A) (f : A → Tx S B) (s : S) {r : B × S}
      → (m >>= f) s ≡ ok r
      → (a : A) × (t : S) × (m s ≡ ok (a, t)) × (f a t ≡ ok r)
  unfolding ◌>>=◌
  >>=-eq-ok m f s {r} h = go (m s) refl h
    where
      go :
          (x : Result (A × S))
          → m s ≡ x
          → continue x f ≡ ok r
          → (a : A) × (t : S) × (m s ≡ ok (a, t)) × (f a t ≡ ok r)
      go (ok (a, t)) e k = (a, t, e, k)
      go (err e) _ k = cc

module _ {S : Type 0} where
  abbrev pub modify : (S → S) → Tx S (Unit {0})
  modify f s = ok (tt, f s)

  abbrev pub throw_if : Bool → Error → Tx S (Unit {0})
  throw_if b e s = if b then err e else ok (tt, s)
