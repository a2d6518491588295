-- ===== src/Sales/Quotations.antt =====
-- backend/src/sales/quotations.ts: an offer, priced as an invoice is.
use advanced_accountancy.Prelude.{String, none, some, List, refl}
use advanced_accountancy.Prelude.Int.{pos, ◌+ℤ◌}
use advanced_accountancy.Prelude.Text.{Text, codes}
use advanced_accountancy.Tx.{Tx, pure, ◌>>=◌, ◌>>◌}
use advanced_accountancy.Schema.{
  Uuid, Day, Quotation, OrderLine, doc_draft, AuditAction, AuditValue, Db,
}
use advanced_accountancy.Tables.{Table, create_row}
use advanced_accountancy.Audit.{record_audit, audit_row}
use advanced_accountancy.Accounting.Numbering.{next}
use advanced_accountancy.Sales.Pricing.{OrderLineDto, Priced, price_lines, order_shape}

pub record CreateQuotationDto : Type 0 where
  pub company_id : Uuid
  pub customer_id : Uuid
  pub quotation_date : Day
  pub currency_code : String
  pub lines : List OrderLineDto

abbrev pub quotations : Table Quotation
quotations = record {
  rows = λ s. s.quotations;
  set_rows = λ xs s. record s { quotations = xs };
  id_of = λ q. q.id;
  holds = λ xs s. refl;
  audited = λ logs s. refl;
  same_journal = λ xs s. refl;
  same_balances = λ xs s. refl;
}

abbrev pub new_quotation : CreateQuotationDto → Priced OrderLine → Text → Uuid → Quotation
new_quotation dto priced quotation_number id = record {
  id = id;
  company_id = dto.company_id;
  customer_id = dto.customer_id;
  quotation_number = quotation_number;
  quotation_date = dto.quotation_date;
  currency_code = dto.currency_code;
  status = doc_draft;
  subtotal = priced.subtotal;
  tax_amount = priced.tax_amount;
  total = priced.subtotal +ℤ priced.tax_amount;
  lines = priced.lines;
}

unfoldable pub create : Uuid → CreateQuotationDto → Tx Db Quotation
create user_id dto = do
  priced ← price_lines order_shape dto.quotation_date 1 (pos 0) (pos 0) dto.lines
  quotation_number ← next dto.company_id "QUOTATION" (codes "QUO-")
  quotation ← create_row quotations (new_quotation dto priced quotation_number)
  record_audit (
      audit_row dto.company_id user_id AuditAction.create "quotation" quotation.id none
        (some (AuditValue.number_total quotation_number quotation.total)))
  pure quotation
