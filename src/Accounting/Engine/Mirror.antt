-- ===== src/Accounting/Engine/Mirror.antt =====
-- A reversal takes back what its original added, leaves the balances reconciled, and happens once.
use mathlib.Core.Path.{ap₂}
use advanced_accountancy.Prelude.{
  eq→≡, find-holds, ◌≡◌, refl, sym, ap, ◌∙◌, Option, some, List, [], ◌∷◌, ◌++◌, map, find,
  find-append, find-modify_first, modify_first, sum_by, sum_by-snoc, sum_by-modify_same,
}
use advanced_accountancy.Prelude.Int.{ℤ, ◌+ℤ◌}
use advanced_accountancy.Tx.{ok, err, not_posted, ◌>>=◌}
use advanced_accountancy.Tx.Ends.{Ends→}
use advanced_accountancy.Schema.{
  Uuid, Day, JournalEntry, JournalEntryLine, posted, status_eq, GlKey, Db,
}
use advanced_accountancy.Accounting.Engine.{has_id, gl_key, mirror_line, reverse}
use advanced_accountancy.Accounting.Engine.Ledger.{
  Selection, Reconciled, balance_debit, balance_credit, lines_debit, lines_credit, counted,
  entry_debit, entry_credit, journal_debit, journal_credit,
}
use advanced_accountancy.Accounting.Engine.Reverse.{Reversal, reverse-Ends, mark_reversed}

module _ (f : JournalEntry → ℤ) (original e : JournalEntry) (journal : List JournalEntry)
    (found : find (has_id original.id) journal ≡ some original)
    (same : f (mark_reversed original) ≡ f original) where
  -- Marking the original leaves a sum over the journal, and the reversal joins it.
  marked_sum :
      sum_by f (modify_first (has_id original.id) mark_reversed (journal ++ e ∷ []))
      ≡ sum_by f journal +ℤ f e
  marked_sum =
      sum_by-modify_same f (has_id original.id) mark_reversed (journal ++ e ∷ [])
        (find-append (has_id original.id) journal (e ∷ []) found) same
      ∙ sum_by-snoc f journal e

pub Reversal-Reconciled :
    (original e : JournalEntry) (s t : Db)
    → find (has_id original.id) s.journal_entries ≡ some original
    → original.status ≡ posted
    → Reconciled s
    → Reversal original s e t
    → Reconciled t
Reversal-Reconciled original e s t found p rec r w =
    let now_posted : e.status ≡ posted = ap (λ (x : JournalEntry). x.status) r.entry in
    record {
      debits =
          r.debits w
          ∙ ap₂ ◌+ℤ◌ (rec w).debits (sym (counted e.status (lines_debit w e e.lines) now_posted))
          ∙ sym (
              marked_sum (entry_debit w) original e s.journal_entries found
                (sym (counted original.status (lines_debit w original original.lines) p)))
          ∙ ap (journal_debit w) (sym r.journal);
      credits =
          r.credits w
          ∙ ap₂ ◌+ℤ◌ (rec w).credits (sym (counted e.status (lines_credit w e e.lines) now_posted))
          ∙ sym (
              marked_sum (entry_credit w) original e s.journal_entries found
                (sym (counted original.status (lines_credit w original original.lines) p)))
          ∙ ap (journal_credit w) (sym r.journal);
    }

pub found_by_id :
    (id : Uuid) (original : JournalEntry) (journal : List JournalEntry)
    → find (has_id id) journal ≡ some original
    → original.id ≡ id
found_by_id id original journal found = eq→≡ original.id id (find-holds (has_id id) journal found)

-- Reversing keeps the balances equal to the sums of the journal, over every selection of keys.
pub reverse-Reconciled :
    (id : Uuid) (date : Day) (by : Option Uuid) (s t : Db) (e : JournalEntry)
    → Reconciled s
    → reverse id date by s ≡ ok (e, t)
    → Reconciled t
reverse-Reconciled id date by s t e rec run =
    let (original, found, p, r) =
      Ends→ _ (reverse id date by s) e t run (reverse-Ends id date by s) in
    Reversal-Reconciled original e s t
      (ap (λ (i : Uuid). find (has_id i) s.journal_entries)
          (found_by_id id original s.journal_entries found)
        ∙ found)
      p rec r

-- A selection that does not look at the period, such as that of an account.
abbrev pub IgnoresPeriod : Selection → Type 0
IgnoresPeriod w = (k : GlKey) (period : Uuid) → w (record k { accounting_period_id = period }) ≡ w k

module _ (w : Selection) (blind : IgnoresPeriod w) (original e : JournalEntry)
    (company : e.company_id ≡ original.company_id) (branch : e.branch_id ≡ original.branch_id) where
  mirrored_key : (l : JournalEntryLine) → w (gl_key e (mirror_line l)) ≡ w (gl_key original l)
  mirrored_key l = rw (company, branch) (blind (gl_key original l) e.accounting_period_id)

  mirrored_debit :
      (ls : List JournalEntryLine)
      → lines_debit w e (map mirror_line ls) ≡ lines_credit w original ls
  mirrored_debit [] = refl
  mirrored_debit (l ∷ ls) = rw (mirrored_key l, mirrored_debit ls)

  mirrored_credit :
      (ls : List JournalEntryLine)
      → lines_credit w e (map mirror_line ls) ≡ lines_debit w original ls
  mirrored_credit [] = refl
  mirrored_credit (l ∷ ls) = rw (mirrored_key l, mirrored_credit ls)

-- Over every selection that does not look at the period, a reversal adds the original's credits to
-- the debits and its debits to the credits, so that the two entries together net to nothing.
pub reverse_mirrors :
    (w : Selection) (id : Uuid) (date : Day) (by : Option Uuid) (s t : Db) (e : JournalEntry)
    → IgnoresPeriod w
    → reverse id date by s ≡ ok (e, t)
    → (original : JournalEntry) × (find (has_id id) s.journal_entries ≡ some original)
      × (balance_debit w t.gl_balances
          ≡ balance_debit w s.gl_balances +ℤ lines_credit w original original.lines)
      × (balance_credit w t.gl_balances
          ≡ balance_credit w s.gl_balances +ℤ lines_debit w original original.lines)
reverse_mirrors w id date by s t e blind run =
    let (original, found, p, r) =
      Ends→ _ (reverse id date by s) e t run (reverse-Ends id date by s) in
    let company : e.company_id ≡ original.company_id =
      ap (λ (x : JournalEntry). x.company_id) r.entry in
    let branch : e.branch_id ≡ original.branch_id =
      ap (λ (x : JournalEntry). x.branch_id) r.entry in
    let lines : e.lines ≡ map mirror_line original.lines =
      ap (λ (x : JournalEntry). x.lines) r.entry in
    (
      original,
      found,
      r.debits w
          ∙ ap (λ (x : ℤ). balance_debit w s.gl_balances +ℤ x)
              (ap (lines_debit w e) lines
                ∙ mirrored_debit w blind original e company branch original.lines),
      r.credits w
          ∙ ap (λ (x : ℤ). balance_credit w s.gl_balances +ℤ x)
              (ap (lines_credit w e) lines
                ∙ mirrored_credit w blind original e company branch original.lines),
    )

-- A reversed entry is not reversed again: after one reversal every other is refused.
pub reverse_once :
    (id : Uuid) (date date' : Day) (by by' : Option Uuid) (s t : Db) (e : JournalEntry)
    → reverse id date by s ≡ ok (e, t)
    → reverse id date' by' t ≡ err not_posted
unfolding reverse ◌>>=◌ status_eq
reverse_once id date date' by by' s t e run =
    let (original, found, p, r) =
      Ends→ _ (reverse id date by s) e t run (reverse-Ends id date by s) in
    let same = found_by_id id original s.journal_entries found in
    let marked : find (has_id id) t.journal_entries ≡ some (mark_reversed original) =
      ap (find (has_id id)) r.journal
      ∙ ap
          (λ (i : Uuid).
            find (has_id id) (modify_first (has_id i) mark_reversed (s.journal_entries ++ e ∷ [])))
          same
      ∙ find-modify_first (has_id id) mark_reversed (s.journal_entries ++ e ∷ []) (λ x. refl)
          (find-append (has_id id) s.journal_entries (e ∷ []) found) in
    rw marked
