-- ===== src/Tx/Requests.antt =====
-- A request: one transaction, or several in turn, each of which commits by itself.
use advanced_accountancy.Prelude.{Bool, true, false, ◌≡◌, refl, if◌then◌else◌}
use advanced_accountancy.Tx.{Error, Result, ok, err, Tx}
use advanced_accountancy.Tx.Keeps.{Keeps}

-- A request: what it answers, and the tables that its committed transactions leave.
abbrev pub Request : Type 0 → Type 0 → Type 0
Request S A = S → Result A × S

-- A transaction that commits, or leaves the tables as they were.
abbrev pub settled : {S A : Type 0} → S → Result (A × S) → Result A × S
settled s (ok (a, t)) = (ok a, t)
settled s (err e) = (err e, s)

abbrev pub in_transaction : {S A : Type 0} → Tx S A → Request S A
in_transaction m s = settled s (m s)

-- The rest of a request, unless it threw.
abbrev pub proceed : {S A B : Type 0} → Result A × S → (A → Request S B) → Result B × S
proceed (ok a, t) f = f a t
proceed (err e, t) f = (err e, t)

abbrev pub and_then : {S A B : Type 0} → Request S A → (A → Request S B) → Request S B
and_then m f s = proceed (m s) f

abbrev pub refuse : {S A : Type 0} → Error → Request S A
refuse e s = (err e, s)

-- Whatever a request answers, it keeps what holds of the tables.
pub record Stays {S A : Type 0} (P : S → Type 0) (r : Request S A) : Type 0 where
  pub at : (s : S) → P s → P (r s).1

module _ {S : Type 0} {P : S → Type 0} where
  pub Stays-transaction : {A : Type 0} (m : Tx S A) → Keeps P m → Stays P (in_transaction m)
  Stays-transaction {A} m k = record { at = λ s h. go s h (m s) refl }
    where
      go : (s : S) → P s → (x : Result (A × S)) → m s ≡ x → P (settled s x).1
      go s h (ok (a, t)) e = k.at s h a t e
      go s h (err _) e = h

  pub Stays-then :
      {A B : Type 0} (m : Request S A) (f : A → Request S B)
      → Stays P m
      → ((a : A) → Stays P (f a))
      → Stays P (and_then m f)
  Stays-then {A} m f k l = record { at = λ s h. go (m s) (k.at s h) }
    where
      go : (x : Result A × S) → P x.1 → P (proceed x f).1
      go (ok a, t) h = (l a).at t h
      go (err _, t) h = h

  pub Stays-refuse : {A : Type 0} (e : Error) → Stays P (refuse {S = S} {A = A} e)
  Stays-refuse e = record { at = λ s h. h }

  pub Stays-if :
      {A : Type 0} (b : Bool) (m n : Request S A)
      → Stays P m
      → Stays P n
      → Stays P (if b then m else n)
  Stays-if true m n k l = k
  Stays-if false m n k l = l
