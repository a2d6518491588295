-- ===== src/Accounting/Engine/Reverse.antt =====
-- Reversal: what it records, and what it does to the balances.
use advanced_accountancy.Prelude.{
  suc, ◌≡◌, refl, ap, ◌∙◌, Option, some, List, [], ◌∷◌, ◌++◌, eq→≡, find, find-holds, find-append,
  modify_first,
}
use advanced_accountancy.Prelude.Int.{◌+ℤ◌}
use advanced_accountancy.Prelude.Text.{Text, codes}
use advanced_accountancy.Tx.{pure, ◌>>=◌, continue}
use advanced_accountancy.Tx.Ends.{
  Ends, Ends-intro, Ends-gets, Ends-or_throw, Ends-throw_if, Ends-map, continue-Ends,
}
use advanced_accountancy.Schema.{
  Uuid, Day, JournalEntry, posted, reversed, AccountingPeriod, GlAccountBalance, Db,
}
use advanced_accountancy.Accounting.Numbering.{next}
use advanced_accountancy.Accounting.Numbering.Sequence.{next-Keeps}
use advanced_accountancy.Accounting.Engine.{
  has_id, create_entry, update_entry, add_to_balances, mirror_entry, record_reversal, reverse,
}
use advanced_accountancy.Accounting.Engine.Update.{
  update_entry_run, status_eq→≡, thawed, true_of_not,
}
use advanced_accountancy.Accounting.Engine.Ledger.{
  Selection, add_to_balances-Added, balance_debit, balance_credit, lines_debit, lines_credit,
}

abbrev pub mark_reversed : JournalEntry → JournalEntry
mark_reversed e = record e { status = reversed }

-- What a reversal leaves behind.
pub record Reversal (original : JournalEntry) (s : Db) (e : JournalEntry) (t : Db) : Type 0 where
  pub period_id : Uuid
  pub entry_number : Text
  pub date : Day
  pub by : Option Uuid
  pub today : Day
  pub id : Uuid
  pub entry : e ≡ mirror_entry original period_id entry_number date by today id
  pub journal :
      t.journal_entries
      ≡ modify_first (has_id original.id) mark_reversed (s.journal_entries ++ e ∷ [])
  pub debits :
      (w : Selection)
      → balance_debit w t.gl_balances ≡ balance_debit w s.gl_balances +ℤ lines_debit w e e.lines
  pub credits :
      (w : Selection)
      → balance_credit w t.gl_balances ≡ balance_credit w s.gl_balances +ℤ lines_credit w e e.lines

-- The tables of the ledger are those of `s`.
abbrev SameLedger : Db → Db → Type 0
SameLedger s t = (t.journal_entries ≡ s.journal_entries) × (t.gl_balances ≡ s.gl_balances)

module _ (original : JournalEntry) (period : AccountingPeriod) (date : Day) (by : Option Uuid) where
  -- The writes behind the numbering, at the state that it leaves.
  reverse_writes :
      (s t : Db) (n : Text)
      → SameLedger s t
      → find (has_id original.id) s.journal_entries ≡ some original
      → original.status ≡ posted
      → let e = mirror_entry original period.id n date by t.now t.next_id in
        let u : Db = record t {
          journal_entries = t.journal_entries ++ e ∷ [];
          next_id = suc t.next_id;
        } in
        Ends
          (λ e' v. Reversal original s e' v)
          (continue
            (update_entry original.id mark_reversed u)
            (λ _. add_to_balances e e.lines >>= (λ _. pure e)))
  unfolding ◌>>=◌
  reverse_writes s t n same found p =
      let e = mirror_entry original period.id n date by t.now t.next_id in
      let u : Db = record t {
        journal_entries = t.journal_entries ++ e ∷ [];
        next_id = suc t.next_id;
      } in
      let there : find (has_id original.id) u.journal_entries ≡ some original =
        find-append (has_id original.id) t.journal_entries (e ∷ [])
          (ap (find (has_id original.id)) same.0 ∙ found) in
      let u' : Db = record u {
        journal_entries = modify_first (has_id original.id) mark_reversed u.journal_entries;
      } in
      let (v, run, a) = add_to_balances-Added e e.lines u' in
      rw (update_entry_run original.id mark_reversed u original there (thawed original.status p)) (
        rw run (record {
          period_id = period.id;
          entry_number = n;
          date = date;
          by = by;
          today = t.now;
          id = t.next_id;
          entry = refl;
          journal =
              ap (λ (x : Db). x.journal_entries) a.rest
              ∙ ap
                  (λ (j : List JournalEntry).
                    modify_first (has_id original.id) mark_reversed (j ++ e ∷ []))
                  same.0;
          debits = λ w.
              a.debits w
              ∙ ap (λ (g : List GlAccountBalance). balance_debit w g +ℤ lines_debit w e e.lines)
                  same.1;
          credits = λ w.
              a.credits w
              ∙ ap (λ (g : List GlAccountBalance). balance_credit w g +ℤ lines_credit w e e.lines)
                  same.1;
        }))

  record_reversal-Ends :
      (s : Db)
      → find (has_id original.id) s.journal_entries ≡ some original
      → original.status ≡ posted
      → Ends (λ e t. Reversal original s e t) (record_reversal original period date by s)
  unfolding record_reversal create_entry ◌>>=◌
  record_reversal-Ends s found p =
      continue-Ends _ (λ n t. SameLedger s t)
        (next original.company_id "JOURNAL_ENTRY" (codes "JE-") s) _
        (Ends-intro _ _
          λ n t e. (next-Keeps {P = SameLedger s} _ _ _ (λ x q i h. h)).at s (refl, refl) n t e)
        λ n t same. reverse_writes s t n same found p

pub reverse-Ends :
    (id : Uuid) (date : Day) (by : Option Uuid) (s : Db)
    → Ends
        (λ e t.
          (original : JournalEntry) × (find (has_id id) s.journal_entries ≡ some original)
          × (original.status ≡ posted)
          × Reversal original s e t)
        (reverse id date by s)
unfolding reverse
reverse-Ends id date by s = Ends-gets _ _ _ s (
    Ends-or_throw _ _ _ _ s λ original found. Ends-throw_if _ _ _ _ s λ was_posted.
      Ends-gets _ _ _ s (
        Ends-or_throw _ _ _ _ s λ period covering. Ends-throw_if _ _ _ _ s λ opened.
          let p : original.status ≡ posted =
            status_eq→≡ original.status posted (true_of_not _ was_posted) in
          let same : original.id ≡ id =
            eq→≡ original.id id (find-holds (has_id id) s.journal_entries found) in
          let found' : find (has_id original.id) s.journal_entries ≡ some original =
            ap (λ (i : Uuid). find (has_id i) s.journal_entries) same ∙ found in
          Ends-map _ (λ e t. Reversal original s e t) _
            (record_reversal-Ends original period date by s found' p)
            λ e t r. (original, found, p, r)))
