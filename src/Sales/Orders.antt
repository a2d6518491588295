-- ===== src/Sales/Orders.antt =====
-- backend/src/sales/sales-orders.ts: an order, priced as an invoice is.
use advanced_accountancy.Prelude.{String, Option, none, some, List, refl}
use advanced_accountancy.Prelude.Int.{pos, ◌+ℤ◌}
use advanced_accountancy.Prelude.Text.{Text, codes}
use advanced_accountancy.Tx.{Tx, pure, ◌>>=◌, ◌>>◌}
use advanced_accountancy.Schema.{
  Uuid, Day, SalesOrder, OrderLine, order_confirmed, AuditAction, AuditValue, Db,
}
use advanced_accountancy.Tables.{Table, create_row}
use advanced_accountancy.Audit.{record_audit, audit_row}
use advanced_accountancy.Accounting.Numbering.{next}
use advanced_accountancy.Sales.Pricing.{OrderLineDto, Priced, price_lines, order_shape}

pub record CreateSalesOrderDto : Type 0 where
  pub company_id : Uuid
  pub customer_id : Uuid
  pub quotation_id : Option Uuid
  pub order_date : Day
  pub currency_code : String
  pub lines : List OrderLineDto

abbrev pub sales_orders : Table SalesOrder
sales_orders = record {
  rows = λ s. s.sales_orders;
  set_rows = λ xs s. record s { sales_orders = xs };
  id_of = λ o. o.id;
  holds = λ xs s. refl;
  audited = λ logs s. refl;
  same_journal = λ xs s. refl;
  same_balances = λ xs s. refl;
}

-- An order is confirmed at once.
abbrev pub new_order : CreateSalesOrderDto → Priced OrderLine → Text → Uuid → SalesOrder
new_order dto priced order_number id = record {
  id = id;
  company_id = dto.company_id;
  customer_id = dto.customer_id;
  quotation_id = dto.quotation_id;
  order_number = order_number;
  order_date = dto.order_date;
  currency_code = dto.currency_code;
  status = order_confirmed;
  subtotal = priced.subtotal;
  tax_amount = priced.tax_amount;
  total = priced.subtotal +ℤ priced.tax_amount;
  lines = priced.lines;
}

unfoldable pub create : Uuid → CreateSalesOrderDto → Tx Db SalesOrder
create user_id dto = do
  priced ← price_lines order_shape dto.order_date 1 (pos 0) (pos 0) dto.lines
  order_number ← next dto.company_id "SALES_ORDER" (codes "SO-")
  order ← create_row sales_orders (new_order dto priced order_number)
  record_audit (
      audit_row dto.company_id user_id AuditAction.create "sales_order" order.id none
        (some (AuditValue.number_total order_number order.total)))
  pure order
