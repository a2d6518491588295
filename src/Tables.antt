-- ===== src/Tables.antt =====
-- A table of rows with an id, as the state's record holds it: what Prisma's `create`, `findUnique`
-- and `update` do to any of them, for the services that share the pattern of a document.
pub mod Increments
pub mod Finish
pub mod Success
use advanced_accountancy.Prelude.{
  ◌≡◌, refl, sym, ap, ◌∙◌, inl, inr, Bool, true, false, Option, none, some, List, [], ◌∷◌, ◌++◌,
  ◌==◌, find, modify_first, All, All-append, Bool-cases, Option-cases, suc,
}
use mathlib.Core.Path.{subst}
use advanced_accountancy.Tx.{Tx, pure, gets, or_throw, modify, record_missing, ◌>>=◌, ◌>>◌}
use advanced_accountancy.Tx.Keeps.{Keeps, Keeps-by}
use advanced_accountancy.Tx.Ends.{Ends}
use advanced_accountancy.Schema.{Uuid, AuditLog, Db, fresh}

-- The operations of a table and their laws.
pub record Table (A : Type 0) : Type 0 where
  pub rows : Db → List A
  pub set_rows : List A → Db → Db
  pub id_of : A → Uuid
  pub holds : (xs : List A) (s : Db) → rows (set_rows xs s) ≡ xs
  pub audited : (logs : List AuditLog) (s : Db) → rows (record s { audit_logs = logs }) ≡ rows s
  pub same_journal : (xs : List A) (s : Db) → (set_rows xs s).journal_entries ≡ s.journal_entries
  pub same_balances : (xs : List A) (s : Db) → (set_rows xs s).gl_balances ≡ s.gl_balances

module _ {A : Type 0} (T : Table A) where
  abbrev pub has_id : Uuid → A → Bool
  has_id id a = T.id_of a == id

  -- `findUnique({ where: { id } })`
  abbrev pub find_row : Uuid → Db → Option A
  find_row id s = find (has_id id) (T.rows s)

  -- `create`
  unfoldable pub create_row : (Uuid → A) → Tx Db A
  create_row make = do
    id ← fresh
    modify (λ s. T.set_rows (T.rows s ++ make id ∷ []) s)
    pure (make id)

  -- `update({ where: { id } })`, which throws where there is no row.
  unfoldable pub update_row : Uuid → (A → A) → Tx Db A
  update_row id change = do
    row ← gets (find_row id)
    before ← or_throw row record_missing
    modify (λ s. T.set_rows (modify_first (has_id id) change (T.rows s)) s)
    pure (change before)

  pub create_row-Ends :
      (make : Uuid → A) (s : Db)
      → Ends
          (λ a t. (id : Uuid) × (a ≡ make id) × (t.journal_entries ≡ s.journal_entries))
          (create_row make s)
  unfolding create_row ◌>>=◌
  create_row-Ends make s = (s.next_id, refl, T.same_journal _ _)

  pub update_row-Ends :
      (id : Uuid) (change : A → A) (s : Db) (before : A)
      → find_row id s ≡ some before
      → Ends
          (λ a t.
            (a ≡ change before)
            × (T.rows t ≡ modify_first (has_id id) change (T.rows s))
            × (t.journal_entries ≡ s.journal_entries))
          (update_row id change s)
  unfolding update_row ◌>>=◌
  update_row-Ends id change s before found = rw found (refl, T.holds _ s, T.same_journal _ s)

  -- What reads no row of the table is kept by both.
  pub update_row-Keeps :
      {P : Db → Type 0} (id : Uuid) (change : A → A)
      → ((s : Db) (xs : List A) → P s → P (T.set_rows xs s))
      → Keeps P (update_row id change)
  unfolding update_row ◌>>=◌
  update_row-Keeps id change k = Keeps-by λ s h. elim (Option-cases (find_row id s)) [
    | inl missing ↦ rw missing tt
    | inr (before, found) ↦ rw found (k s _ h)
  ]

  pub create_row-Keeps :
      {P : Db → Type 0} (make : Uuid → A)
      → ((s : Db) (i : Uuid) (xs : List A) → P s → P (T.set_rows xs (record s { next_id = i })))
      → Keeps P (create_row make)
  unfolding create_row ◌>>=◌
  create_row-Keeps make k = Keeps-by λ s h. k s (suc s.next_id) _ h

  All-modify_first :
      (Q : A → Type 0) (p : A → Bool) (change : A → A) (xs : List A)
      → ((a : A) → Q a → Q (change a))
      → All Q xs
      → All Q (modify_first p change xs)
  All-modify_first Q p change [] k h = tt
  All-modify_first Q p change (a ∷ xs) k h = elim (Bool-cases (p a)) [
    | inl this ↦ rw this (k a h.0, h.1)
    | inr other ↦ rw other (h.0, All-modify_first Q p change xs k h.1)
  ]

  -- What holds of every row, where the change keeps it.
  pub update_row-All :
      (Q : A → Type 0) (id : Uuid) (change : A → A)
      → ((a : A) → Q a → Q (change a))
      → Keeps (λ s. All Q (T.rows s)) (update_row id change)
  unfolding update_row ◌>>=◌
  update_row-All Q id change k = Keeps-by λ s h. elim (Option-cases (find_row id s)) [
    | inl missing ↦ rw missing tt
    | inr (before, found) ↦
        rw found
          (subst (All Q) (sym (T.holds _ s)) (All-modify_first Q (has_id id) change (T.rows s) k h))
  ]

  -- What holds of the new row holds of every row still.
  pub create_row-All :
      (Q : A → Type 0) (make : Uuid → A)
      → ((id : Uuid) → Q (make id))
      → ((s : Db) (i : Uuid) → T.rows (record s { next_id = i }) ≡ T.rows s)
      → Keeps (λ s. All Q (T.rows s)) (create_row make)
  unfolding create_row ◌>>=◌
  create_row-All Q make k same = Keeps-by λ s h. subst (All Q) (sym (T.holds _ _)) (
      All-append Q _ (make s.next_id ∷ []) (subst (All Q) (sym (same s (suc s.next_id))) h)
        (k s.next_id, tt))
