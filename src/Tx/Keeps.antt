-- ===== src/Tx/Keeps.antt =====
-- Invariants of transactions: one rule for each way to build a step.
use mathlib.Core.Path.{subst}
use advanced_accountancy.Prelude.{Bool, true, false, Option, none, some, ◌≡◌, refl, if◌then◌else◌}
use advanced_accountancy.Tx.{
  Error, Result, ok, err, Tx, pure, throw, gets, or_throw, modify, throw_if, ◌>>=◌, >>=-eq-ok,
}

-- Where `m` commits, it keeps `P`.
pub record Keeps {ℓ} {S A : Type ℓ} (P : S → Type ℓ) (m : Tx S A) : Type ℓ where
  pub at : (s : S) → P s → (a : A) (t : S) → m s ≡ ok (a, t) → P t

-- The state of a transaction that commits.
abbrev pub Holds {ℓ} : {S A : Type ℓ} → (S → Type ℓ) → Result (A × S) → Type ℓ
Holds P (ok (_, t)) = P t
Holds P (err _) = Unit

pub Holds→ {ℓ} :
    {S A : Type ℓ} (P : S → Type ℓ) (r : Result (A × S)) (a : A) (t : S)
    → r ≡ ok (a, t)
    → Holds P r
    → P t
Holds→ P r a t e h = subst (Holds P) e h

module _ {ℓ} {S A : Type ℓ} {P : S → Type ℓ} where
  -- To keep `P` it is enough to end in it.
  pub Keeps-by : {m : Tx S A} → ((s : S) → P s → Holds P (m s)) → Keeps P m
  Keeps-by {m} k = record { at = λ s h a t e. Holds→ P (m s) a t e (k s h) }

  pub Keeps-Holds : {m : Tx S A} → Keeps P m → (s : S) → P s → Holds P (m s)
  Keeps-Holds {m} k s h = go (m s) refl
    where
      go : (r : Result (A × S)) → m s ≡ r → Holds P r
      go (ok (a, t)) e = k.at s h a t e
      go (err _) _ = tt

  pub Keeps-pure : (a : A) → Keeps P (pure a)
  Keeps-pure a = Keeps-by (λ s h. h)

  pub Keeps-throw : (e : Error) → Keeps P (throw {A = A} e)
  Keeps-throw e = Keeps-by (λ s h. tt)

  pub Keeps-gets : (f : S → A) → Keeps P (gets f)
  Keeps-gets f = Keeps-by (λ s h. h)

  pub Keeps-or_throw : (o : Option A) (e : Error) → Keeps P (or_throw {S = S} o e)
  Keeps-or_throw none e = Keeps-by (λ s h. tt)
  Keeps-or_throw (some a) e = Keeps-by (λ s h. h)

  pub Keeps-if : (b : Bool) (m n : Tx S A) → Keeps P m → Keeps P n → Keeps P (if b then m else n)
  Keeps-if true m n km kn = km
  Keeps-if false m n km kn = kn

module _ {ℓ} {S A B : Type ℓ} {P : S → Type ℓ} where
  pub Keeps-bind :
      (m : Tx S A) (f : A → Tx S B) → Keeps P m → ((a : A) → Keeps P (f a)) → Keeps P (m >>= f)
  Keeps-bind m f km kf = record {
    at = λ s h b t e.
        let (a, u, first, rest) = >>=-eq-ok m f s e in (kf a).at u (km.at s h a u first) b t rest;
  }

module _ {S : Type 0} {P : S → Type 0} where
  pub Keeps-modify : (f : S → S) → ((s : S) → P s → P (f s)) → Keeps P (modify f)
  Keeps-modify f k = Keeps-by (λ s h. k s h)

  pub Keeps-throw_if : (b : Bool) (e : Error) → Keeps P (throw_if {S = S} b e)
  Keeps-throw_if true e = Keeps-by (λ s h. tt)
  Keeps-throw_if false e = Keeps-by (λ s h. h)

pub ruleset keeps_rules =
    (Keeps-pure, Keeps-throw, Keeps-gets, Keeps-or_throw, Keeps-if, Keeps-bind, Keeps-throw_if)
