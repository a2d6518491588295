-- ===== src/Accounting/Engine/Ledger.antt =====
-- The sums that `gl_account_balances` stands for, and the agreement of the two: over every
-- selection of balance keys the balances total what the posted lines total.
use advanced_accountancy.Prelude.{
  ◌≡◌, refl, sym, ap, ◌∙◌, inl, inr, Bool, true, false, List, [], ◌∷◌, ◌++◌, sum_by, sum_by-snoc,
  Bool-cases, if◌then◌else◌,
}
use advanced_accountancy.Prelude.Int.{ℤ, pos, ◌+ℤ◌, int_laws}
use advanced_accountancy.Tx.{ok, ◌>>=◌}
use advanced_accountancy.Schema.{
  Cents, JournalStatus, JournalEntry, JournalEntryLine, GlKey, GlAccountBalance, posted, reversed,
  key_eq, key_eq→≡, Db,
}
use advanced_accountancy.Accounting.Engine.{
  gl_key, upsert_balance, update_gl_balance, add_to_balances,
}

-- A selection of keys, such as the keys of an account, or of a company and a period.
abbrev pub Selection : Type 0
Selection = GlKey → Bool

abbrev pub picked : Bool → Cents → Cents
picked b c = if b then c else pos 0

abbrev pub balance_debit : Selection → List GlAccountBalance → Cents
balance_debit w = sum_by (λ b. picked (w b.key) b.debit_total)

abbrev pub balance_credit : Selection → List GlAccountBalance → Cents
balance_credit w = sum_by (λ b. picked (w b.key) b.credit_total)

abbrev pub lines_debit : Selection → JournalEntry → List JournalEntryLine → Cents
lines_debit w e = sum_by (λ l. picked (w (gl_key e l)) l.debit)

abbrev pub lines_credit : Selection → JournalEntry → List JournalEntryLine → Cents
lines_credit w e = sum_by (λ l. picked (w (gl_key e l)) l.credit)

-- A reversed entry stays in the ledger: its reversal takes it back.
abbrev pub in_ledger : JournalStatus → Bool
in_ledger posted = true
in_ledger reversed = true
in_ledger _ = false

abbrev pub entry_debit : Selection → JournalEntry → Cents
entry_debit w e = picked (in_ledger e.status) (lines_debit w e e.lines)

abbrev pub entry_credit : Selection → JournalEntry → Cents
entry_credit w e = picked (in_ledger e.status) (lines_credit w e e.lines)

abbrev pub journal_debit : Selection → List JournalEntry → Cents
journal_debit w = sum_by (entry_debit w)

abbrev pub journal_credit : Selection → List JournalEntry → Cents
journal_credit w = sum_by (entry_credit w)

pub record Agrees (w : Selection) (gl : List GlAccountBalance) (journal : List JournalEntry)
    : Type 0 where
  pub debits : balance_debit w gl ≡ journal_debit w journal
  pub credits : balance_credit w gl ≡ journal_credit w journal

-- The balances are what the journal sums to.
abbrev pub Reconciled : Db → Type 0
Reconciled s = (w : Selection) → Agrees w s.gl_balances s.journal_entries

pub picked_add : (x : Bool) (a d s : ℤ) → picked x (a +ℤ d) +ℤ s ≡ picked x a +ℤ s +ℤ picked x d
picked_add true a d s = omega int_laws
picked_add false a d s = omega int_laws

module _ (w : Selection) (k : GlKey) (d c : Cents) where
  -- An upsert adds its amounts to every selection that holds its key, and to no other.
  pub debit-upsert :
      (bs : List GlAccountBalance)
      → balance_debit w (upsert_balance k d c bs) ≡ balance_debit w bs +ℤ picked (w k) d
  unfolding upsert_balance
  debit-upsert [] = omega int_laws
  debit-upsert (b ∷ bs) = elim (Bool-cases (key_eq b.key k)) [
    | inl same ↦ rw same (
        rw (ap w (sym (key_eq→≡ b.key k same)))
          (picked_add (w b.key) b.debit_total d (balance_debit w bs)))
    | inr other ↦ rw (other, debit-upsert bs) (omega int_laws)
  ]

  pub credit-upsert :
      (bs : List GlAccountBalance)
      → balance_credit w (upsert_balance k d c bs) ≡ balance_credit w bs +ℤ picked (w k) c
  unfolding upsert_balance
  credit-upsert [] = omega int_laws
  credit-upsert (b ∷ bs) = elim (Bool-cases (key_eq b.key k)) [
    | inl same ↦ rw same (
        rw (ap w (sym (key_eq→≡ b.key k same)))
          (picked_add (w b.key) b.credit_total c (balance_credit w bs)))
    | inr other ↦ rw (other, credit-upsert bs) (omega int_laws)
  ]

-- What the loop over an entry's lines leaves: the balances with the lines added, all else as it was.
pub record Added (e : JournalEntry) (ls : List JournalEntryLine) (s t : Db) : Type 0 where
  pub rest : t ≡ record s { gl_balances = t.gl_balances }
  pub debits :
      (w : Selection)
      → balance_debit w t.gl_balances ≡ balance_debit w s.gl_balances +ℤ lines_debit w e ls
  pub credits :
      (w : Selection)
      → balance_credit w t.gl_balances ≡ balance_credit w s.gl_balances +ℤ lines_credit w e ls

pub add_to_balances-Added :
    (e : JournalEntry) (ls : List JournalEntryLine) (s : Db)
    → (t : Db) × (add_to_balances e ls s ≡ ok (tt, t)) × Added e ls s t
unfolding add_to_balances update_gl_balance ◌>>=◌
add_to_balances-Added e [] s =
    (s, refl, record { rest = refl; debits = λ w. omega int_laws; credits = λ w. omega int_laws })
add_to_balances-Added e (l ∷ ls) s =
    let s' : Db = record s {
      gl_balances = upsert_balance (gl_key e l) l.debit l.credit s.gl_balances;
    } in
    let (t, run, a) = add_to_balances-Added e ls s' in
    (
      t,
      run,
      record {
        rest = a.rest;
        debits = λ w.
            a.debits w
            ∙ (rw (debit-upsert w (gl_key e l) l.debit l.credit s.gl_balances) (omega int_laws));
        credits = λ w.
            a.credits w
            ∙ (rw (credit-upsert w (gl_key e l) l.debit l.credit s.gl_balances) (omega int_laws));
      },
    )

pub counted : (j : JournalStatus) (x : Cents) → j ≡ posted → picked (in_ledger j) x ≡ x
counted j x p = rw p

-- A posted entry that is appended while its lines are added keeps the agreement.
pub posted-Reconciled :
    (e : JournalEntry) (s t : Db)
    → e.status ≡ posted
    → Reconciled s
    → Added e e.lines (record s { journal_entries = s.journal_entries ++ e ∷ [] }) t
    → Reconciled t
posted-Reconciled e s t p r a =
    let journal : t.journal_entries ≡ s.journal_entries ++ e ∷ [] =
      ap (λ (x : Db). x.journal_entries) a.rest in
    λ w. record {
      debits =
          a.debits w
          ∙ ap (λ (x : ℤ). x +ℤ lines_debit w e e.lines) (r w).debits
          ∙ ap (λ (x : ℤ). journal_debit w s.journal_entries +ℤ x)
              (sym (counted e.status (lines_debit w e e.lines) p))
          ∙ sym (sum_by-snoc (entry_debit w) s.journal_entries e)
          ∙ ap (journal_debit w) (sym journal);
      credits =
          a.credits w
          ∙ ap (λ (x : ℤ). x +ℤ lines_credit w e e.lines) (r w).credits
          ∙ ap (λ (x : ℤ). journal_credit w s.journal_entries +ℤ x)
              (sym (counted e.status (lines_credit w e e.lines) p))
          ∙ sym (sum_by-snoc (entry_credit w) s.journal_entries e)
          ∙ ap (journal_credit w) (sym journal);
    }
