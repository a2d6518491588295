-- ===== src/Tx/Ends.antt =====
-- Postconditions of transactions, with one rule for each way to begin a step.
use mathlib.Core.Path.{subst}
use advanced_accountancy.Prelude.{Bool, true, false, Option, none, some, ◌≡◌, refl, if◌then◌else◌}
use advanced_accountancy.Tx.{Error, Result, ok, err, Tx, gets, or_throw, throw_if, continue, ◌>>=◌}

-- `Q` holds of the value and the state, if the transaction commits.
abbrev pub Ends {ℓ κ} : {S A : Type ℓ} → (A → S → Type κ) → Result (A × S) → Type κ
Ends Q (ok (a, t)) = Q a t
Ends Q (err _) = Unit

pub Ends→ {ℓ κ} :
    {S A : Type ℓ} (Q : A → S → Type κ) (r : Result (A × S)) (a : A) (t : S)
    → r ≡ ok (a, t)
    → Ends Q r
    → Q a t
Ends→ Q r a t e h = subst (Ends Q) e h

-- What every commit satisfies is a postcondition.
pub Ends-intro {ℓ κ} :
    {S A : Type ℓ} (Q : A → S → Type κ) (r : Result (A × S))
    → ((a : A) (t : S) → r ≡ ok (a, t) → Q a t)
    → Ends Q r
Ends-intro Q (ok (a, t)) k = k a t refl
Ends-intro Q (err _) k = tt

module _ {ℓ κ} {S A B : Type ℓ} (Q : B → S → Type κ) where
  pub continue-Ends :
      (R : A → S → Type κ) (r : Result (A × S)) (f : A → Tx S B)
      → Ends R r
      → ((a : A) (t : S) → R a t → Ends Q (f a t))
      → Ends Q (continue r f)
  continue-Ends R (ok (a, t)) f h k = k a t h
  continue-Ends R (err _) f h k = tt

  pub Ends-bind :
      (R : A → S → Type κ) (m : Tx S A) (f : A → Tx S B) (s : S)
      → Ends R (m s)
      → ((a : A) (t : S) → R a t → Ends Q (f a t))
      → Ends Q ((m >>= f) s)
  unfolding ◌>>=◌
  Ends-bind R m f s h k = continue-Ends R (m s) f h k

  pub Ends-gets :
      (g : S → A) (f : A → Tx S B) (s : S) → Ends Q (f (g s) s) → Ends Q ((gets g >>= f) s)
  unfolding ◌>>=◌
  Ends-gets g f s k = k

  pub Ends-or_throw :
      (o : Option A) (e : Error) (f : A → Tx S B) (s : S)
      → ((a : A) → o ≡ some a → Ends Q (f a s))
      → Ends Q ((or_throw o e >>= f) s)
  unfolding ◌>>=◌
  Ends-or_throw none e f s k = tt
  Ends-or_throw (some a) e f s k = k a refl

module _ {κ} {S B : Type 0} (Q : B → S → Type κ) where
  pub Ends-throw_if :
      (b : Bool) (e : Error) (f : Unit {0} → Tx S B) (s : S)
      → (b ≡ false → Ends Q (f tt s))
      → Ends Q ((throw_if b e >>= f) s)
  unfolding ◌>>=◌
  Ends-throw_if true e f s k = tt
  Ends-throw_if false e f s k = k refl

pub Ends-map {ℓ κ} :
    {S A : Type ℓ} (Q R : A → S → Type κ) (r : Result (A × S))
    → Ends R r
    → ((a : A) (t : S) → R a t → Q a t)
    → Ends Q r
Ends-map Q R (ok (a, t)) h k = k a t h
Ends-map Q R (err _) h k = tt

pub Ends-trivial {ℓ} : {S A : Type ℓ} (r : Result (A × S)) → Ends (λ a t. Unit {0}) r
Ends-trivial (ok (a, t)) = tt
Ends-trivial (err _) = tt

pub Ends-if {ℓ κ} :
    {S A : Type ℓ} (Q : A → S → Type κ) (b : Bool) (m n : Tx S A) (s : S)
    → Ends Q (m s)
    → Ends Q (n s)
    → Ends Q ((if b then m else n) s)
Ends-if Q true m n s h k = h
Ends-if Q false m n s h k = k
