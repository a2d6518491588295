-- ===== src/Tx/Commits.antt =====
-- Transactions that commit: one rule for each way to begin a step.
use advanced_accountancy.Prelude.{◌≡◌, refl, Bool, true, false, not, Option, some}
use advanced_accountancy.Tx.{Error, Result, ok, Tx, gets, or_throw, modify, throw_if, ◌>>=◌}

-- The transaction commits, with some value and state.
abbrev pub Commits : {S A : Type 0} → Result (A × S) → Type 0
Commits {S} {A} r = (a : A) × (t : S) × (r ≡ ok (a, t))

module _ {S A B : Type 0} where
  pub Commits-bind :
      (m : Tx S A) (f : A → Tx S B) (s : S) (a : A) (t : S)
      → m s ≡ ok (a, t)
      → Commits (f a t)
      → Commits ((m >>= f) s)
  unfolding ◌>>=◌
  Commits-bind m f s a t e k = rw e k

  pub Commits-gets :
      (g : S → A) (f : A → Tx S B) (s : S) → Commits (f (g s) s) → Commits ((gets g >>= f) s)
  unfolding ◌>>=◌
  Commits-gets g f s k = k

  pub Commits-or_throw :
      (o : Option A) (e : Error) (f : A → Tx S B) (s : S) (a : A)
      → o ≡ some a
      → Commits (f a s)
      → Commits ((or_throw o e >>= f) s)
  unfolding ◌>>=◌
  Commits-or_throw o e f s a h k = rw h k

module _ {S B : Type 0} where
  pub Commits-throw_if :
      (b : Bool) (e : Error) (f : Unit {0} → Tx S B) (s : S)
      → b ≡ false
      → Commits (f tt s)
      → Commits ((throw_if b e >>= f) s)
  unfolding ◌>>=◌
  Commits-throw_if b e f s h k = rw h k

  pub Commits-modify :
      (g : S → S) (f : Unit {0} → Tx S B) (s : S)
      → Commits (f tt (g s))
      → Commits ((modify g >>= f) s)
  unfolding ◌>>=◌
  Commits-modify g f s k = k

pub false_of_not : (b : Bool) → b ≡ true → not b ≡ false
false_of_not b h = rw h refl
