-- ===== src/Tables/Increments.antt =====
-- `update({ data: { amountPaid: { increment } } })` on the rows of a table.
use advanced_accountancy.Prelude.{
  ◌≡◌, refl, ap, ◌∙◌, inl, inr, false, some, List, [], ◌∷◌, arith, ◌==◌, find, modify_first,
  find-modify_first, Bool-cases, Option-cases, if◌then◌else◌,
}
use advanced_accountancy.Prelude.Int.{pos, ◌+ℤ◌}
use advanced_accountancy.Tx.{◌>>=◌}
use advanced_accountancy.Tx.Ends.{Ends}
use advanced_accountancy.Schema.{Uuid, Cents, Db}
use advanced_accountancy.Tables.{Table, has_id, find_row, update_row}

-- A number of a row that is incremented.
pub record Increment {A : Type 0} (T : Table A) : Type 0 where
  pub add : Cents → A → A
  pub same_id : (c : Cents) (a : A) → T.id_of (add c a) ≡ T.id_of a
  pub add_zero : (a : A) → a ≡ add (pos 0) a
  pub add_twice : (b c : Cents) (a : A) → add c (add b a) ≡ add (b +ℤ c) a

module _ {A : Type 0} (T : Table A) (I : Increment T) where
  -- Every row has been given an amount, and is otherwise as it was.
  abbrev pub Given : (Uuid → Cents) → Db → Db → Type 0
  Given amount s t =
      (id : Uuid) (a : A) → find_row T id s ≡ some a → find_row T id t ≡ some (I.add (amount id) a)

  -- What one payment gives.
  abbrev pub part : Uuid → Cents → Uuid → Cents
  part target c id = if target == id then c else pos 0

  find-other :
      (id other : Uuid) (c : Cents) (xs : List A)
      → (other == id) ≡ false
      → find (has_id T id) (modify_first (has_id T other) (I.add c) xs) ≡ find (has_id T id) xs
  find-other id other c [] h = refl
  find-other id other c (a ∷ xs) h = ground (arith, find-other id other c xs, I.same_id c a)

  same_test : (id : Uuid) (c : Cents) (a : A) → has_id T id (I.add c a) ≡ has_id T id a
  same_test id c a = ap (λ (j : Uuid). j == id) (I.same_id c a)

  find-given :
      (target : Uuid) (c : Cents) (xs : List A) (id : Uuid) (a : A)
      → find (has_id T id) xs ≡ some a
      → find (has_id T id) (modify_first (has_id T target) (I.add c) xs)
        ≡ some (I.add (part target c id) a)
  find-given target c xs id a h = elim (Bool-cases (target == id)) [
    | inl same ↦
        let e : target ≡ id = ground arith in
        rw same (rw e (find-modify_first (has_id T id) (I.add c) xs (same_test id c) h))
    | inr other ↦ rw other (find-other id target c xs other ∙ h ∙ ap some (I.add_zero a))
  ]

  pub increment-Given :
      (target : Uuid) (c : Cents) (s : Db)
      → Ends (λ a t. Given (part target c) s t) (update_row T target (I.add c) s)
  unfolding update_row ◌>>=◌
  increment-Given target c s = elim (Option-cases (find_row T target s)) [
    | inl missing ↦ rw missing tt
    | inr (before, found) ↦
        rw found
          λ id a h. ap (find (has_id T id)) (T.holds _ s) ∙ find-given target c (T.rows s) id a h
  ]

  pub Given-none : (s : Db) → Given (λ id. pos 0) s s
  Given-none s id a h = h ∙ ap some (I.add_zero a)

  pub Given-then :
      (f g : Uuid → Cents) (s t u : Db) → Given f s t → Given g t u → Given (λ id. f id +ℤ g id) s u
  Given-then f g s t u h k id a found =
      k id (I.add (f id) a) (h id a found) ∙ ap some (I.add_twice (f id) (g id) a)

  -- Steps that leave the table before and after.
  pub Given-between :
      (f : Uuid → Cents) (s s' t t' : Db)
      → T.rows s' ≡ T.rows s
      → T.rows t' ≡ T.rows t
      → Given f s' t
      → Given f s t'
  Given-between f s s' t t' before after h id a found =
      ap (find (has_id T id)) after ∙ h id a (ap (find (has_id T id)) before ∙ found)
