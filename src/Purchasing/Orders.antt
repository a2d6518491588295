-- ===== src/Purchasing/Orders.antt =====
-- backend/src/purchasing/purchase-orders.ts: an order to a supplier.
use advanced_accountancy.Prelude.{String, Option, none, some, List, refl}
use advanced_accountancy.Prelude.Int.{pos, ◌+ℤ◌}
use advanced_accountancy.Prelude.Text.{Text, codes}
use advanced_accountancy.Tx.{Tx, pure, ◌>>=◌, ◌>>◌}
use advanced_accountancy.Schema.{
  Uuid, Day, PurchaseOrder, OrderLine, order_confirmed, AuditAction, AuditValue, Db,
}
use advanced_accountancy.Tables.{Table, create_row}
use advanced_accountancy.Audit.{record_audit, audit_row}
use advanced_accountancy.Accounting.Numbering.{next}
use advanced_accountancy.Sales.Pricing.{OrderLineDto, Priced, price_lines, order_shape}

pub record CreatePurchaseOrderDto : Type 0 where
  pub company_id : Uuid
  pub supplier_id : Uuid
  pub purchase_request_id : Option Uuid
  pub order_date : Day
  pub currency_code : String
  pub lines : List OrderLineDto

abbrev pub purchase_orders : Table PurchaseOrder
purchase_orders = record {
  rows = λ s. s.purchase_orders;
  set_rows = λ xs s. record s { purchase_orders = xs };
  id_of = λ o. o.id;
  holds = λ xs s. refl;
  audited = λ logs s. refl;
  same_journal = λ xs s. refl;
  same_balances = λ xs s. refl;
}

-- An order is confirmed at once.
abbrev pub new_order : CreatePurchaseOrderDto → Priced OrderLine → Text → Uuid → PurchaseOrder
new_order dto priced order_number id = record {
  id = id;
  company_id = dto.company_id;
  supplier_id = dto.supplier_id;
  purchase_request_id = dto.purchase_request_id;
  order_number = order_number;
  order_date = dto.order_date;
  currency_code = dto.currency_code;
  status = order_confirmed;
  subtotal = priced.subtotal;
  tax_amount = priced.tax_amount;
  total = priced.subtotal +ℤ priced.tax_amount;
  lines = priced.lines;
}

unfoldable pub create : Uuid → CreatePurchaseOrderDto → Tx Db PurchaseOrder
create user_id dto = do
  priced ← price_lines order_shape dto.order_date 1 (pos 0) (pos 0) dto.lines
  order_number ← next dto.company_id "PURCHASE_ORDER" (codes "PO-")
  order ← create_row purchase_orders (new_order dto priced order_number)
  record_audit (
      audit_row dto.company_id user_id AuditAction.create "purchase_order" order.id none
        (some (AuditValue.number_total order_number order.total)))
  pure order
