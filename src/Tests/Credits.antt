-- ===== src/Tests/Credits.antt =====
-- A credit note on the invoice of Tests/Sales.
use advanced_accountancy.Prelude.{true, ◌≡◌, refl, some, [], ◌∷◌}
use advanced_accountancy.Prelude.Int.{pos}
use advanced_accountancy.Tx.{ok}
use advanced_accountancy.Schema.{PostingRule, debit, credit, CreditNote, Db}
use advanced_accountancy.Tables.{create_row, update_row}
use advanced_accountancy.Accounting.Engine.Balance.{entry_debits, entry_credits}
use advanced_accountancy.Sales.CreditNotes
use advanced_accountancy.Sales.CreditNotes.{CreateCreditNoteDto, new_note, settle}
use advanced_accountancy.Sales.CreditNotes.Settled.{NotePosted}
use advanced_accountancy.Sales.CreditNotes.Success.{credit_note_posts}
use advanced_accountancy.Tests.Fixture.{august, committed}
use advanced_accountancy.Tests.Sales.{sales_runs, invoiced}

abbrev credit_rule : PostingRule
credit_rule = record {
  id = 36;
  company_id = 1;
  event_type = "CREDIT_NOTE_POSTED";
  is_active = true;
  lines =
      record {
        line_no = 1;
        side = debit;
        account_resolver = "CONTROL:SALES_REVENUE";
        amount_source = "amount";
      }
      ∷ record {
        line_no = 2;
        side = credit;
        account_resolver = "CONTROL:AR";
        amount_source = "amount";
      }
      ∷ [];
}

abbrev credits_db : Db
credits_db = record invoiced.1 { posting_rules = credit_rule ∷ invoiced.1.posting_rules }

-- 10.00 off the invoice.
abbrev allowance : CreateCreditNoteDto
allowance = record {
  company_id = 1;
  customer_id = 51;
  sales_invoice_id = some 101;
  credit_note_date = 738012;
  amount = pos 1000000000;
}

credit_runs : Unit {0}
unfolding sales_runs create_row update_row CreditNotes.create CreditNotes.post settle
credit_runs = tt

abbrev noted : CreditNote × Db
unfolding credit_runs
noted = committed (CreditNotes.create 5 allowance credits_db) (new_note allowance [] 0) credits_db

abbrev note_booked : CreditNote × Db
unfolding credit_runs
note_booked = committed (CreditNotes.post 6 noted.0.id noted.1) (new_note allowance [] 0) credits_db

note_runs : CreditNotes.post 6 noted.0.id noted.1 ≡ ok note_booked
unfolding credit_runs
note_runs = refl

credit_note_posts_example :
    (n : CreditNote) × (t : Db) × (CreditNotes.post 6 noted.0.id noted.1 ≡ ok (n, t))
    × ((p : NotePosted 6 noted.0.id noted.1 t) × (entry_debits p.entry ≡ entry_credits p.entry))
unfolding credit_runs
credit_note_posts_example =
    credit_note_posts 6 noted.0.id noted.1 noted.0
      (record { id = 1; business_group_id = some 9; base_currency_code = "USD" }) credit_rule august
      refl refl refl (_, refl) refl refl refl (refl, (refl, tt)) refl refl
