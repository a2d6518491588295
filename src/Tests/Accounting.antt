-- ===== src/Tests/Accounting.antt =====
-- The accounting theorems at the company of Fixture.
use advanced_accountancy.Prelude.{ℕ, ◌≤◌, Bool, ◌==◌, ◌≡◌, refl, none, some, [], find}
use advanced_accountancy.Prelude.Int.{pos, ◌+ℤ◌, ◌-ℤ◌, neg, abs}
use advanced_accountancy.Prelude.Text.{Text, codes}
use advanced_accountancy.Tx.{ok, err, not_posted, ◌>>=◌}
use advanced_accountancy.Schema.{
  JournalEntry, GlKey, Db, from_cents, to_cents, status_eq, key_eq, is_open,
}
use advanced_accountancy.Accounting.Numbering.{next}
use advanced_accountancy.Accounting.Engine.{
  covers, frozen, upsert_balance, update_gl_balance, create_entry, update_entry, resolve_account,
  build_lines, add_to_balances, event_entry, record_event, post_event, record_reversal, reverse,
  has_id,
}
use advanced_accountancy.Accounting.Engine.Balance.{
  AreWhole, entry_debits, entry_credits, post_event_balanced,
}
use advanced_accountancy.Accounting.Engine.Ledger.{
  balance_debit, balance_credit, lines_debit, lines_credit,
}
use advanced_accountancy.Accounting.Engine.Mirror.{IgnoresPeriod, reverse_mirrors, reverse_once}
use advanced_accountancy.Accounting.Engine.Postable.{Postable, post_event_iff}
use advanced_accountancy.Tx.Commits.{Commits}
use advanced_accountancy.Accounting.Numbering.Format.{format_number, format_number-injective}
use advanced_accountancy.Accounting.Numbering.Sequence.{
  SequencesValid, upcoming, Advanced, next_returns,
}
use advanced_accountancy.Tests.Fixture.{company_db, sale, committed}

-- What a run of the engine computes with.
unfoldable pub engine_runs : Unit {0}
unfolding reverse record_reversal post_event record_event build_lines resolve_account covers is_open
    frozen create_entry update_entry status_eq add_to_balances update_gl_balance upsert_balance
    key_eq next to_cents neg abs ◌+ℤ◌ ◌-ℤ◌ ◌>>=◌
engine_runs = tt

-- Any entry serves where a run does not commit.
abbrev blank : JournalEntry
blank = event_entry sale 0 0 [] [] 0 0

abbrev pub after_sale : JournalEntry × Db
unfolding engine_runs
after_sale = committed (post_event sale company_db) blank company_db

pub post_event_runs : post_event sale company_db ≡ ok after_sale
unfolding engine_runs
post_event_runs = refl

abbrev after_reversal : JournalEntry × Db
unfolding engine_runs
after_reversal = committed (reverse 101 738020 none after_sale.1) blank company_db

reverse_runs : reverse 101 738020 none after_sale.1 ≡ ok after_reversal
unfolding engine_runs
reverse_runs = refl

pub sale-AreWhole : AreWhole sale.amounts
unfolding from_cents
sale-AreWhole = ((pos 10000, refl), ((pos 1000, refl), ((pos 11000, refl), tt)))

post_event_balanced_example : abs (entry_debits after_sale.0 -ℤ entry_credits after_sale.0) ≤ 1
post_event_balanced_example =
    post_event_balanced sale company_db after_sale.1 after_sale.0 sale-AreWhole post_event_runs

-- The selection of the receivable account.
receivable : GlKey → Bool
receivable k = k.account_id == 21

receivable-IgnoresPeriod : IgnoresPeriod receivable
unfolding receivable
receivable-IgnoresPeriod k period = refl

reverse_mirrors_example :
    (original : JournalEntry) × (find (has_id 101) after_sale.1.journal_entries ≡ some original)
    × (balance_debit receivable after_reversal.1.gl_balances
        ≡ balance_debit receivable after_sale.1.gl_balances
          +ℤ lines_credit receivable original original.lines)
    × (balance_credit receivable after_reversal.1.gl_balances
        ≡ balance_credit receivable after_sale.1.gl_balances
          +ℤ lines_debit receivable original original.lines)
reverse_mirrors_example =
    reverse_mirrors receivable 101 738020 none after_sale.1 after_reversal.1 after_reversal.0
      receivable-IgnoresPeriod reverse_runs

reverse_once_example : reverse 101 738021 (some 5) after_reversal.1 ≡ err not_posted
reverse_once_example =
    reverse_once 101 738020 738021 none (some 5) after_sale.1 after_reversal.1 after_reversal.0
      reverse_runs

format_number-injective_example : ◌≡◌ {A = ℕ} 7 7
format_number-injective_example = format_number-injective (codes "JE-") 7 7 refl

company_db-SequencesValid : SequencesValid company_db
company_db-SequencesValid = record { distinct = tt; drawn = tt }

abbrev numbered : Text × Db
unfolding engine_runs
numbered = committed (next 1 "JOURNAL_ENTRY" (codes "JE-") company_db) [] company_db

next_runs : next 1 "JOURNAL_ENTRY" (codes "JE-") company_db ≡ ok numbered
unfolding engine_runs
next_runs = refl

next_returns_example :
    (numbered.0 ≡ format_number (codes "JE-") (upcoming 1 "JOURNAL_ENTRY" company_db))
    × Advanced 1 "JOURNAL_ENTRY" company_db numbered.1
next_returns_example =
    next_returns 1 "JOURNAL_ENTRY" (codes "JE-") company_db numbered.1 numbered.0
      company_db-SequencesValid next_runs

-- The run shows what the tables must have held.
sale-Postable : Postable sale company_db
sale-Postable = (post_event_iff sale company_db).0 (after_sale.0, after_sale.1, post_event_runs)
