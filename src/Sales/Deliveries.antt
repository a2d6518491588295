-- ===== src/Sales/Deliveries.antt =====
-- backend/src/sales/deliveries.ts: goods out, and the cost of goods sold.
pub mod Cost
pub mod Enough
pub mod Success
use advanced_accountancy.Prelude.{
  ℕ, suc, Bool, not, Option, none, some, List, [], ◌∷◌, ◌++◌, ◌==◌, find, modify_first,
}
use advanced_accountancy.Prelude.Int.{pos, ◌+ℤ◌}
use advanced_accountancy.Prelude.Text.{Text, codes}
use advanced_accountancy.Tx.{
  Tx, pure, gets, or_throw, modify, throw_if, ◌>>=◌, ◌>>◌, not_found, wrong_status, record_missing,
}
use advanced_accountancy.Schema.{
  Uuid, Day, Amount, Quantity, Delivery, DeliveryLine, Company, company_has_id, doc_draft,
  doc_posted, doc_eq, no_dimensions, AuditAction, AuditValue, Db, fresh,
}
use advanced_accountancy.Audit.{record_audit, audit_row}
use advanced_accountancy.Accounting.Numbering.{next}
use advanced_accountancy.Accounting.Engine.{PostEventParams, post_event}
use advanced_accountancy.Inventory.{StockMoveContext, record_stock_out}

pub record DeliveryLineDto : Type 0 where
  pub product_id : Uuid
  pub quantity : Quantity

pub record CreateDeliveryDto : Type 0 where
  pub company_id : Uuid
  pub sales_order_id : Option Uuid
  pub warehouse_id : Uuid
  pub delivery_date : Day
  pub lines : List DeliveryLineDto

abbrev pub delivery_has_id : Uuid → Delivery → Bool
delivery_has_id id d = d.id == id

-- `dto.lines.map((l, idx) => ...)`, from line number `n`
abbrev pub delivery_lines : ℕ → List DeliveryLineDto → List DeliveryLine
delivery_lines n [] = []
delivery_lines n (l ∷ rest) =
    record { line_no = n; product_id = l.product_id; quantity = l.quantity }
    ∷ delivery_lines (suc n) rest

abbrev pub new_delivery : CreateDeliveryDto → Text → Uuid → Delivery
new_delivery dto delivery_number id = record {
  id = id;
  company_id = dto.company_id;
  sales_order_id = dto.sales_order_id;
  warehouse_id = dto.warehouse_id;
  delivery_number = delivery_number;
  delivery_date = dto.delivery_date;
  status = doc_draft;
  journal_entry_id = none;
  lines = delivery_lines 1 dto.lines;
}

unfoldable pub create : Uuid → CreateDeliveryDto → Tx Db Delivery
create user_id dto = do
  delivery_number ← next dto.company_id "DELIVERY" (codes "DO-")
  id ← fresh
  let delivery = new_delivery dto delivery_number id
  modify (λ s. record s { deliveries = s.deliveries ++ delivery ∷ [] })
  record_audit (
      audit_row dto.company_id user_id AuditAction.create "delivery" id none
        (some (AuditValue.number delivery_number)))
  pure delivery

abbrev pub delivery_context : Delivery → Uuid → StockMoveContext
delivery_context d product_id = record {
  company_id = d.company_id;
  warehouse_id = d.warehouse_id;
  product_id = product_id;
  source_module = "SALES";
  source_doc_type = "delivery";
  source_doc_id = d.id;
  move_date = d.delivery_date;
}

-- The loop over the lines, with the cost so far.
unfoldable pub draw_lines : Delivery → Amount → List DeliveryLine → Tx Db Amount
draw_lines d total_cost [] = pure total_cost
draw_lines d total_cost (l ∷ rest) = do
  cost ← record_stock_out (delivery_context d l.product_id) l.quantity
  draw_lines d (total_cost +ℤ cost.total_cost) rest

-- The event of a delivery.
abbrev pub delivery_event : Uuid → Delivery → Company → Amount → PostEventParams
delivery_event user_id d company total_cost = record {
  company_id = d.company_id;
  branch_id = none;
  event_type = "DELIVERY_POSTED";
  entry_date = d.delivery_date;
  currency_code = company.base_currency_code;
  exchange_rate = none;
  source_module = "SALES";
  source_doc_type = "delivery";
  source_doc_id = d.id;
  description = some (codes "Delivery " ++ d.delivery_number);
  amounts = ("cost", total_cost) ∷ [];
  account_overrides = [];
  dimensions = no_dimensions;
  created_by = some user_id;
}

abbrev pub mark_posted : Uuid → Delivery → Delivery
mark_posted entry_id d = record d { status = doc_posted; journal_entry_id = some entry_id }

-- `delivery.update({ where: { id } })`, which throws where there is no row.
unfoldable pub update_delivery : Uuid → (Delivery → Delivery) → Tx Db Delivery
update_delivery id change = do
  row ← gets (λ s. find (delivery_has_id id) s.deliveries)
  before ← or_throw row record_missing
  modify (λ s. record s { deliveries = modify_first (delivery_has_id id) change s.deliveries })
  pure (change before)

unfoldable pub post : Uuid → Uuid → Tx Db Delivery
post user_id id = do
  found ← gets (λ s. find (delivery_has_id id) s.deliveries)
  delivery ← or_throw found not_found
  throw_if (not (doc_eq delivery.status doc_draft)) wrong_status
  total_cost ← draw_lines delivery (pos 0) delivery.lines
  row ← gets (λ s. find (company_has_id delivery.company_id) s.companies)
  company ← or_throw row record_missing
  entry ← post_event (delivery_event user_id delivery company total_cost)
  posted ← update_delivery id (mark_posted entry.id)
  record_audit (
      audit_row delivery.company_id user_id AuditAction.post "delivery" id none
        (some (AuditValue.entry_cost entry.id total_cost)))
  pure posted
