-- ===== src/Purchasing/GoodsReceipts.antt =====
-- backend/src/purchasing/goods-receipts.ts: goods that come in, which raise the stock and post no entry.
pub mod Stock
pub mod Success
use advanced_accountancy.Prelude.{not, Option, none, some, List, [], ◌∷◌, refl, ℕ, suc}
use advanced_accountancy.Prelude.Int.{pos}
use advanced_accountancy.Prelude.Text.{Text, codes}
use advanced_accountancy.Tx.{
  Tx, pure, gets, or_throw, throw_if, ◌>>=◌, ◌>>◌, not_found, wrong_status,
}
use advanced_accountancy.Schema.{
  Uuid, Day, Cents, GoodsReceipt, GoodsReceiptLine, Quantity, doc_draft, doc_posted, doc_eq,
  AuditAction, AuditValue, Db,
}
use advanced_accountancy.Tables.{Table, find_row, create_row, update_row}
use advanced_accountancy.Audit.{record_audit, audit_row}
use advanced_accountancy.Accounting.Numbering.{next}
use advanced_accountancy.Prelude.Int.{◌*ℤ◌}
use advanced_accountancy.Sales.Pricing.{stored_price}
use advanced_accountancy.Inventory.{StockMoveContext, record_stock_in}

pub record GoodsReceiptLineDto : Type 0 where
  pub product_id : Uuid
  pub quantity : Quantity
  pub unit_cost : Quantity

pub record CreateGoodsReceiptDto : Type 0 where
  pub company_id : Uuid
  pub purchase_order_id : Option Uuid
  pub warehouse_id : Uuid
  pub receipt_date : Day
  pub lines : List GoodsReceiptLineDto

abbrev pub goods_receipts : Table GoodsReceipt
goods_receipts = record {
  rows = λ s. s.goods_receipts;
  set_rows = λ xs s. record s { goods_receipts = xs };
  id_of = λ r. r.id;
  holds = λ xs s. refl;
  audited = λ logs s. refl;
  same_journal = λ xs s. refl;
  same_balances = λ xs s. refl;
}

abbrev pub receipt_lines : ℕ → List GoodsReceiptLineDto → List GoodsReceiptLine
receipt_lines n [] = []
receipt_lines n (l ∷ rest) =
    record {
      line_no = n;
      product_id = l.product_id;
      quantity = l.quantity;
      unit_cost = stored_price l.unit_cost;
    }
    ∷ receipt_lines (suc n) rest

abbrev pub new_receipt : CreateGoodsReceiptDto → Text → Uuid → GoodsReceipt
new_receipt dto receipt_number id = record {
  id = id;
  company_id = dto.company_id;
  purchase_order_id = dto.purchase_order_id;
  warehouse_id = dto.warehouse_id;
  receipt_number = receipt_number;
  receipt_date = dto.receipt_date;
  status = doc_draft;
  lines = receipt_lines 1 dto.lines;
}

unfoldable pub create : Uuid → CreateGoodsReceiptDto → Tx Db GoodsReceipt
create user_id dto = do
  receipt_number ← next dto.company_id "GOODS_RECEIPT" (codes "GRN-")
  receipt ← create_row goods_receipts (new_receipt dto receipt_number)
  record_audit (
      audit_row dto.company_id user_id AuditAction.create "goods_receipt" receipt.id none
        (some (AuditValue.number receipt_number)))
  pure receipt

abbrev pub receipt_context : GoodsReceipt → Uuid → StockMoveContext
receipt_context r product_id = record {
  company_id = r.company_id;
  warehouse_id = r.warehouse_id;
  product_id = product_id;
  source_module = "PURCHASING";
  source_doc_type = "goods_receipt";
  source_doc_id = r.id;
  move_date = r.receipt_date;
}

-- A number of hundredths, in ten-thousandths.
unfoldable pub cost_of : Cents → Quantity
cost_of unit_cost = unit_cost *ℤ pos 100

-- The loop over the lines.
unfoldable pub take_in : GoodsReceipt → List GoodsReceiptLine → Tx Db (Unit {0})
take_in r [] = pure tt
take_in r (l ∷ rest) = do
  cost ← record_stock_in (receipt_context r l.product_id) l.quantity (cost_of l.unit_cost)
  take_in r rest

abbrev pub mark_posted : GoodsReceipt → GoodsReceipt
mark_posted r = record r { status = doc_posted }

unfoldable pub post : Uuid → Uuid → Tx Db GoodsReceipt
post user_id id = do
  found ← gets (find_row goods_receipts id)
  receipt ← or_throw found not_found
  throw_if (not (doc_eq receipt.status doc_draft)) wrong_status
  take_in receipt receipt.lines
  posted ← update_row goods_receipts id mark_posted
  record_audit (audit_row receipt.company_id user_id AuditAction.post "goods_receipt" id none none)
  pure posted
