-- ===== src/Accounting/Reports/Ledger.antt =====
-- backend/src/accounting/reports/reports.service.ts: the trial balance, which reads the maintained
-- balances, against the lines of the journal.
use advanced_accountancy.Prelude.{
  ◌≡◌, ◌≢◌, refl, sym, ap, ◌∙◌, inl, inr, Bool, false, ◌&&◌, Option, none, some, List, [], ◌∷◌,
  arith, find, sum_by, All, Bool-cases, String, ◌==◌,
}
use advanced_accountancy.Prelude.Int.{ℤ, pos, ◌+ℤ◌, ◌-ℤ◌, int_laws}
use advanced_accountancy.Schema.{
  Uuid, Day, Cents, Side, debit, credit, ChartOfAccount, GlKey, GlAccountBalance, Db,
}
use advanced_accountancy.Accounting.Engine.Ledger.{
  Selection, journal_debit, journal_credit, Reconciled,
}
use advanced_accountancy.Accounting.Reports.{
  Group, same_group, AccountRow, account_has_id, group_of, in_query, add_group, add_balance,
  group_rows, query_rows, ends_by, any_group, by_code, trial_balance_rows,
}
use advanced_accountancy.Accounting.Reports.Groups.{
  same_group→≡, same_group_self, row_amount, column, balance_column, in_group, All-order_rows,
  column-query_rows, column-group_rows, IsDerived, group_rows-IsDerived,
}

-- The rows have one group each, and their balance is their debits less their credits.
abbrev Without : Group → List AccountRow → Type 0
Without g = All (λ r. r.group ≢ g)

abbrev AreDistinct : List AccountRow → Type 0
AreDistinct [] = Unit
AreDistinct (r ∷ rows) = Without r.group rows × AreDistinct rows

other_group : (a b : Group) → a ≢ b → same_group a b ≡ false
other_group a b ne = elim (Bool-cases (same_group a b)) [
  | inl same ↦ absurd (ne (same_group→≡ a b same))
  | inr other ↦ other
]

Without-add_group :
    (h g : Group) (d c : Cents) (rows : List AccountRow)
    → g ≢ h
    → Without h rows
    → Without h (add_group g d c rows)
unfolding add_group
Without-add_group h g d c [] ne w = (ne, tt)
Without-add_group h g d c (r ∷ rows) ne w = elim (Bool-cases (same_group r.group g)) [
  | inl same ↦ rw same (ne, w.1)
  | inr other ↦ rw other (w.0, Without-add_group h g d c rows ne w.1)
]

add_group-AreDistinct :
    (g : Group) (d c : Cents) (rows : List AccountRow)
    → AreDistinct rows
    → AreDistinct (add_group g d c rows)
unfolding add_group
add_group-AreDistinct g d c [] a = (tt, tt)
add_group-AreDistinct g d c (r ∷ rows) a = elim (Bool-cases (same_group r.group g)) [
  | inl same ↦ rw same (rw (← same_group→≡ r.group g same) a)
  | inr other ↦ rw other (
    Without-add_group r.group g d c rows
        (λ e. ground (arith, same_group_self r.group, ap (same_group r.group) e, other)) a.0,
    add_group-AreDistinct g d c rows a.1,
  )
]

add_balance-AreDistinct :
    (a : Option ChartOfAccount) (b : GlAccountBalance) (rows : List AccountRow)
    → AreDistinct rows
    → AreDistinct (add_balance a b rows)
add_balance-AreDistinct none b rows d = d
add_balance-AreDistinct (some a) b rows d =
    add_group-AreDistinct (group_of a) b.debit_total b.credit_total rows d

group_rows-AreDistinct :
    (chart : List ChartOfAccount) (w : Selection) (bs : List GlAccountBalance)
    → AreDistinct (group_rows chart w bs)
unfolding group_rows
group_rows-AreDistinct chart w [] = tt
group_rows-AreDistinct chart w (b ∷ bs) = elim (Bool-cases (w b.key)) [
  | inl on ↦ rw on (
      add_balance-AreDistinct (find (account_has_id b.key.account_id) chart) b _
        (group_rows-AreDistinct chart w bs))
  | inr off ↦ rw off (group_rows-AreDistinct chart w bs)
]

-- A group that no row has sums to nothing.
column-Without :
    (side : Side) (g : Group) (rows : List AccountRow)
    → Without g rows
    → column side (λ h. same_group h g) rows ≡ pos 0
column-Without side g [] w = refl
column-Without side g (r ∷ rows) w =
    rw (other_group r.group g w.0, column-Without side g rows w.1) (omega int_laws)

plus_zero : (x : ℤ) → x +ℤ pos 0 ≡ x
plus_zero x = omega int_laws

zero_plus : (x : ℤ) → pos 0 +ℤ x ≡ x
zero_plus x = omega int_laws

-- A row of distinct rows is the sum over its group.
abbrev IsColumn : Side → List AccountRow → AccountRow → Type 0
IsColumn side rows r = column side (λ h. same_group h r.group) rows ≡ row_amount side r

All-skip :
    (side : Side) (r : AccountRow) (rows qs : List AccountRow)
    → Without r.group qs
    → All (IsColumn side rows) qs
    → All (IsColumn side (r ∷ rows)) qs
All-skip side r rows [] w a = tt
All-skip side r rows (q ∷ qs) w a = (
  rw (other_group r.group q.group (λ e. w.0 (sym e))) (zero_plus _ ∙ a.0),
  All-skip side r rows qs w.1 a.1,
)

AreDistinct→IsColumn :
    (side : Side) (rows : List AccountRow) → AreDistinct rows → All (IsColumn side rows) rows
AreDistinct→IsColumn side [] d = tt
AreDistinct→IsColumn side (r ∷ rows) d = (
  rw (same_group_self r.group, column-Without side r.group rows d.0) (plus_zero _),
  All-skip side r rows rows d.0 (AreDistinct→IsColumn side rows d.1),
)

-- The keys that the trial balance counts in a group, and in all of them.
abbrev pub of_group : Group → Uuid → Day → Db → Selection
of_group g company_id as_of s k =
    in_query company_id (ends_by as_of) any_group s k
    && in_group (λ h. same_group h g) s.chart_of_accounts k

abbrev pub of_company : Uuid → Day → Db → Selection
of_company company_id as_of s = in_query company_id (ends_by as_of) any_group s

-- A row of the trial balance is what the lines of its group sum to in the journal.
pub record SumsJournal (company_id : Uuid) (as_of : Day) (s : Db) (r : AccountRow) : Type 0 where
  pub debits : r.debit ≡ journal_debit (of_group r.group company_id as_of s) s.journal_entries
  pub credits : r.credit ≡ journal_credit (of_group r.group company_id as_of s) s.journal_entries
  pub derived : r.balance ≡ r.debit -ℤ r.credit

-- So is every row, and so are the totals: no line of the company up to the date is left out.
pub record TrialBalanceSums (company_id : Uuid) (as_of : Day) (s : Db) (rows : List AccountRow)
    : Type 0 where
  pub each : All (SumsJournal company_id as_of s) rows
  pub total_debit :
      sum_by (λ r. r.debit) rows ≡ journal_debit (of_company company_id as_of s) s.journal_entries
  pub total_credit :
      sum_by (λ r. r.credit) rows ≡ journal_credit (of_company company_id as_of s) s.journal_entries

All-join :
    (P Q R S : AccountRow → Type 0) (rows : List AccountRow)
    → ((r : AccountRow) → P r → Q r → R r → S r)
    → All P rows
    → All Q rows
    → All R rows
    → All S rows
All-join P Q R S [] f p q r = tt
All-join P Q R S (x ∷ rows) f p q r = (f x p.0 q.0 r.0, All-join P Q R S rows f p.1 q.1 r.1)

pub and_again : (x y z : Bool) → (x && y && z) && y ≡ x && y && z
and_again x y z = ground arith

pub balance_column-same :
    (side : Side) (v w : Selection) (bs : List GlAccountBalance)
    → ((k : GlKey) → v k ≡ w k)
    → balance_column side v bs ≡ balance_column side w bs
balance_column-same side v w [] h = refl
balance_column-same side v w (b ∷ bs) h = rw (h b.key, balance_column-same side v w bs h) refl

total :
    (side : Side) (before : AccountRow → AccountRow → Bool) (company_id : Uuid) (as_of : Day)
    (s : Db)
    → sum_by (row_amount side) (query_rows before company_id (ends_by as_of) any_group s)
      ≡ balance_column side (of_company company_id as_of s) s.gl_balances
total side before company_id as_of s =
    column-query_rows side any_group before company_id (ends_by as_of) any_group s
    ∙ balance_column-same side _ (of_company company_id as_of s) s.gl_balances
        λ k. and_again (k.company_id == company_id) _ _

-- Where the balance rows are reconciled with the journal, the trial balance is what a report
-- over the journal's lines would be: each row's debit and credit are the sums over the lines, in
-- posted and reversed entries, of the company, of periods that end by the date and of accounts
-- in the row's group; its balance is the first less the second; and the totals over the rows are
-- those over all such lines whose account is in the chart.
pub trial_balance-journal :
    (collates : String → String → Bool) (company_id : Uuid) (as_of : Day) (s : Db)
    → Reconciled s
    → TrialBalanceSums company_id as_of s (trial_balance_rows collates company_id as_of s)
trial_balance-journal collates company_id as_of s rec =
    let rows = group_rows s.chart_of_accounts (of_company company_id as_of s) s.gl_balances in
    let distinct : AreDistinct rows =
      group_rows-AreDistinct s.chart_of_accounts (of_company company_id as_of s) s.gl_balances in
    record {
      each = All-order_rows (SumsJournal company_id as_of s) (by_code collates) rows (
          All-join (IsColumn debit rows) (IsColumn credit rows) IsDerived _ rows
            (λ r d c e. record {
              debits =
                  sym d
                  ∙ column-group_rows debit (λ h. same_group h r.group) s.chart_of_accounts
                      (of_company company_id as_of s) s.gl_balances
                  ∙ (rec (of_group r.group company_id as_of s)).debits;
              credits =
                  sym c
                  ∙ column-group_rows credit (λ h. same_group h r.group) s.chart_of_accounts
                      (of_company company_id as_of s) s.gl_balances
                  ∙ (rec (of_group r.group company_id as_of s)).credits;
              derived = e;
            })
            (AreDistinct→IsColumn debit rows distinct) (AreDistinct→IsColumn credit rows distinct)
            (group_rows-IsDerived s.chart_of_accounts (of_company company_id as_of s)
              s.gl_balances));
      total_debit =
          total debit (by_code collates) company_id as_of s
          ∙ (rec (of_company company_id as_of s)).debits;
      total_credit =
          total credit (by_code collates) company_id as_of s
          ∙ (rec (of_company company_id as_of s)).credits;
    }
