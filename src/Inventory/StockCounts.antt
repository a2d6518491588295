-- ===== src/Inventory/StockCounts.antt =====
-- backend/src/inventory/stock-counts.ts: a physical count, and the entry for its variance.
pub mod Variance
pub mod Posting
use advanced_accountancy.Prelude.{
  ℕ, suc, Bool, not, ◌||◌, Option, none, some, List, [], ◌∷◌, ◌++◌, ◌==◌, find, modify_first,
  if◌then◌else◌,
}
use advanced_accountancy.Prelude.Int.{pos, ◌+ℤ◌, neg, ltb_ℤ}
use advanced_accountancy.Prelude.Text.{Text, codes}
use advanced_accountancy.Tx.{
  Tx, pure, gets, or_throw, modify, throw_if, ◌>>=◌, ◌>>◌, not_found, wrong_status, record_missing,
}
use advanced_accountancy.Schema.{
  Uuid, Day, Amount, Quantity, StockCount, StockCountLine, StockBalance, Company, company_has_id,
  doc_draft, doc_posted, doc_eq, no_dimensions, AuditAction, AuditValue, Db, fresh,
}
use advanced_accountancy.Audit.{record_audit, audit_row}
use advanced_accountancy.Accounting.Numbering.{next}
use advanced_accountancy.Accounting.Engine.{PostEventParams, post_event}
use advanced_accountancy.Inventory.{StockMoveContext, is_balance, on_hand_of, record_adjustment}

pub record StockCountLineDto : Type 0 where
  pub product_id : Uuid
  pub counted_quantity : Quantity

pub record CreateStockCountDto : Type 0 where
  pub company_id : Uuid
  pub warehouse_id : Uuid
  pub count_date : Day
  pub lines : List StockCountLineDto

abbrev pub count_has_id : Uuid → StockCount → Bool
count_has_id id c = c.id == id

-- The loop over the lines, from line number `n`: each reads what is on hand.
unfoldable pub count_lines : Uuid → ℕ → List StockCountLineDto → Tx Db (List StockCountLine)
count_lines warehouse_id n [] = pure []
count_lines warehouse_id n (l ∷ rest) = do
  balance ← gets (λ s. find (is_balance warehouse_id l.product_id) s.stock_balances)
  lines ← count_lines warehouse_id (suc n) rest
  pure (
      record {
        line_no = n;
        product_id = l.product_id;
        system_quantity = on_hand_of balance;
        counted_quantity = l.counted_quantity;
      }
      ∷ lines)

abbrev pub new_count : CreateStockCountDto → Text → List StockCountLine → Uuid → StockCount
new_count dto count_number lines id = record {
  id = id;
  company_id = dto.company_id;
  warehouse_id = dto.warehouse_id;
  count_number = count_number;
  count_date = dto.count_date;
  status = doc_draft;
  lines = lines;
}

unfoldable pub create : Uuid → CreateStockCountDto → Tx Db StockCount
create user_id dto = do
  count_number ← next dto.company_id "STOCK_COUNT" (codes "SC-")
  lines ← count_lines dto.warehouse_id 1 dto.lines
  id ← fresh
  let stock_count = new_count dto count_number lines id
  modify (λ s. record s { stock_counts = s.stock_counts ++ stock_count ∷ [] })
  record_audit (
      audit_row dto.company_id user_id AuditAction.create "stock_count" id none
        (some (AuditValue.number count_number)))
  pure stock_count

abbrev pub count_context : StockCount → Uuid → StockMoveContext
count_context c product_id = record {
  company_id = c.company_id;
  warehouse_id = c.warehouse_id;
  product_id = product_id;
  source_module = "INVENTORY";
  source_doc_type = "stock_count";
  source_doc_id = c.id;
  move_date = c.count_date;
}

-- `increaseAmount` and `decreaseAmount`
pub record Variances : Type 0 where
  pub increase_amount : Amount
  pub decrease_amount : Amount

unfoldable pub add_variance : Variances → Amount → Variances
add_variance v value =
    if ltb_ℤ (pos 0) value
    then record v { increase_amount = v.increase_amount +ℤ value }
    else record v { decrease_amount = v.decrease_amount +ℤ neg value }

-- The loop over the lines, with the amounts so far.
unfoldable pub adjust_lines : StockCount → Variances → List StockCountLine → Tx Db Variances
adjust_lines c v [] = pure v
adjust_lines c v (l ∷ rest) = do
  value ← record_adjustment (count_context c l.product_id) l.system_quantity l.counted_quantity
  adjust_lines c (add_variance v value) rest

-- The event of a count.
abbrev pub count_event : Uuid → StockCount → Company → Variances → PostEventParams
count_event user_id c company v = record {
  company_id = c.company_id;
  branch_id = none;
  event_type = "INVENTORY_ADJUSTMENT_POSTED";
  entry_date = c.count_date;
  currency_code = company.base_currency_code;
  exchange_rate = none;
  source_module = "INVENTORY";
  source_doc_type = "stock_count";
  source_doc_id = c.id;
  description = some (codes "Stock Count " ++ c.count_number);
  amounts = ("increaseAmount", v.increase_amount) ∷ ("decreaseAmount", v.decrease_amount) ∷ [];
  account_overrides = [];
  dimensions = no_dimensions;
  created_by = some user_id;
}

-- The entry, where a variance has a value.
unfoldable pub post_variance : Uuid → StockCount → Variances → Tx Db (Option Uuid)
post_variance user_id c v =
    let posted = do
      row ← gets (λ s. find (company_has_id c.company_id) s.companies)
      company ← or_throw row record_missing
      entry ← post_event (count_event user_id c company v)
      pure (some entry.id)
    in if ltb_ℤ (pos 0) v.increase_amount || ltb_ℤ (pos 0) v.decrease_amount
      then posted
      else pure none

abbrev pub mark_posted : StockCount → StockCount
mark_posted c = record c { status = doc_posted }

unfoldable pub update_count : Uuid → (StockCount → StockCount) → Tx Db StockCount
update_count id change = do
  row ← gets (λ s. find (count_has_id id) s.stock_counts)
  before ← or_throw row record_missing
  modify (λ s. record s { stock_counts = modify_first (count_has_id id) change s.stock_counts })
  pure (change before)

unfoldable pub post : Uuid → Uuid → Tx Db StockCount
post user_id id = do
  found ← gets (λ s. find (count_has_id id) s.stock_counts)
  stock_count ← or_throw found not_found
  throw_if (not (doc_eq stock_count.status doc_draft)) wrong_status
  v ←
      adjust_lines stock_count (record { increase_amount = pos 0; decrease_amount = pos 0 })
        stock_count.lines
  journal_entry_id ← post_variance user_id stock_count v
  posted ← update_count id mark_posted
  record_audit (
      audit_row stock_count.company_id user_id AuditAction.post "stock_count" id none
        (some (AuditValue.count_result journal_entry_id v.increase_amount v.decrease_amount)))
  pure posted
