-- ===== src/Inventory.antt =====
-- backend/src/inventory/inventory.service.ts: the stock ledger and its weighted-average valuation.
pub mod Stock
pub mod StockCounts
use advanced_accountancy.Prelude.{
  ℕ, ◌+◌, ◌*◌, ◌/◌, String, Bool, ◌&&◌, not, Option, none, some, List, [], ◌∷◌, ◌++◌, ◌==◌, find,
  modify_first, if◌then◌else◌,
}
use advanced_accountancy.Prelude.Int.{
  ℤ, pos, pos_part, abs, ◌+ℤ◌, ◌-ℤ◌, ◌*ℤ◌, neg, is_zero, leb_ℤ, ltb_ℤ,
}
use advanced_accountancy.Tx.{
  Tx, pure, gets, or_throw, modify, throw_if, ◌>>=◌, ◌>>◌, bad_quantity, insufficient_stock,
  record_missing,
}
use advanced_accountancy.Schema.{
  Uuid, Day, Quantity, Amount, StockMove, StockBalance, MoveType, stock_in, stock_out, adjustment,
  Db,
}

pub record StockMoveContext : Type 0 where
  pub company_id : Uuid
  pub warehouse_id : Uuid
  pub product_id : Uuid
  pub source_module : String
  pub source_doc_type : String
  pub source_doc_id : Uuid
  pub move_date : Day

-- The unique key `warehouseId_productId`.
abbrev pub is_balance : Uuid → Uuid → StockBalance → Bool
is_balance warehouse_id product_id b =
    (b.warehouse_id == warehouse_id) && (b.product_id == product_id)

abbrev pub on_hand_of : Option StockBalance → Quantity
on_hand_of none = pos 0
on_hand_of (some b) = b.quantity_on_hand

abbrev pub average_of : Option StockBalance → Quantity
average_of none = pos 0
average_of (some b) = b.average_cost

unfoldable pub read_balance : StockMoveContext → Tx Db (Option StockBalance)
read_balance ctx = gets (λ s. find (is_balance ctx.warehouse_id ctx.product_id) s.stock_balances)

-- `stockMove.create`
unfoldable pub create_move : StockMoveContext → MoveType → Quantity → Quantity → Tx Db (Unit {0})
create_move ctx move_type quantity unit_cost = modify (λ s. record s {
  stock_moves =
      s.stock_moves
      ++ record {
        company_id = ctx.company_id;
        warehouse_id = ctx.warehouse_id;
        product_id = ctx.product_id;
        move_type = move_type;
        quantity = quantity;
        unit_cost = unit_cost;
        source_module = ctx.source_module;
        source_doc_type = ctx.source_doc_type;
        source_doc_id = ctx.source_doc_id;
        move_date = ctx.move_date;
      }
        ∷ [];
})

-- `stockBalance.upsert`: the row to create, and the update of the row that is there.
unfoldable pub upsert_stock :
    StockBalance → (StockBalance → StockBalance) → List StockBalance → List StockBalance
upsert_stock row change [] = row ∷ []
upsert_stock row change (b ∷ rest) =
    if is_balance row.warehouse_id row.product_id b
    then change b ∷ rest
    else b ∷ upsert_stock row change rest

abbrev pub new_balance : StockMoveContext → Quantity → Quantity → StockBalance
new_balance ctx quantity_on_hand average_cost = record {
  company_id = ctx.company_id;
  warehouse_id = ctx.warehouse_id;
  product_id = ctx.product_id;
  quantity_on_hand = quantity_on_hand;
  average_cost = average_cost;
}

-- A number that a division gives, exactly.
pub record Fraction : Type 0 where
  pub numerator : ℤ
  pub denominator : ℕ

-- What the column of scale 4 keeps of a number of ten-thousandths: a half goes away from zero.
unfoldable pub stored_cost : Fraction → Quantity
unfolding neg
stored_cost x =
    let d = x.denominator in
    let n = abs x.numerator in
    let rounded = pos ((2 * n + d) / (2 * d)) in
    if ltb_ℤ x.numerator (pos 0) then neg rounded else rounded

-- `newQty > 0 ? (oldQty * oldAvgCost + quantity * unitCost) / newQty : 0`
unfoldable pub blended_cost : Option StockBalance → Quantity → Quantity → Fraction
blended_cost existing quantity unit_cost =
    let new_qty = on_hand_of existing +ℤ quantity in
    if ltb_ℤ (pos 0) new_qty
    then record {
      numerator = on_hand_of existing *ℤ average_of existing +ℤ quantity *ℤ unit_cost;
      denominator = pos_part new_qty;
    }
    else record { numerator = pos 0; denominator = 1 }

abbrev pub set_stock : Quantity → Quantity → StockBalance → StockBalance
set_stock quantity_on_hand average_cost b = record b {
  quantity_on_hand = quantity_on_hand;
  average_cost = average_cost;
}

abbrev pub set_quantity : Quantity → StockBalance → StockBalance
set_quantity quantity_on_hand b = record b { quantity_on_hand = quantity_on_hand }

-- `stockBalance.upsert` on the context's key.
unfoldable pub save_stock : StockBalance → (StockBalance → StockBalance) → Tx Db (Unit {0})
unfolding upsert_stock
save_stock row change =
    modify (λ s. record s { stock_balances = upsert_stock row change s.stock_balances })

-- `recordStockIn`
unfoldable pub record_stock_in : StockMoveContext → Quantity → Quantity → Tx Db Fraction
record_stock_in ctx quantity unit_cost = do
  throw_if (leb_ℤ quantity (pos 0)) bad_quantity
  create_move ctx stock_in quantity unit_cost
  existing ← read_balance ctx
  let new_qty = on_hand_of existing +ℤ quantity
  let new_avg_cost = blended_cost existing quantity unit_cost
  save_stock (new_balance ctx new_qty (stored_cost new_avg_cost))
      (set_stock new_qty (stored_cost new_avg_cost))
  pure new_avg_cost

-- `stockBalance.update`, which throws where there is no row.
unfoldable pub update_stock : StockMoveContext → (StockBalance → StockBalance) → Tx Db (Unit {0})
update_stock ctx change = do
  row ← gets (λ s. find (is_balance ctx.warehouse_id ctx.product_id) s.stock_balances)
  before ← or_throw row record_missing
  modify (λ s. record s {
    stock_balances =
        modify_first (is_balance ctx.warehouse_id ctx.product_id) change s.stock_balances;
  })

-- The unit cost, and the total cost in units of 10^-8.
pub record IssueCost : Type 0 where
  pub unit_cost : Quantity
  pub total_cost : Amount

-- `recordStockOut`
unfoldable pub record_stock_out : StockMoveContext → Quantity → Tx Db IssueCost
record_stock_out ctx quantity = do
  throw_if (leb_ℤ quantity (pos 0)) bad_quantity
  balance ← read_balance ctx
  throw_if (ltb_ℤ (on_hand_of balance) quantity) insufficient_stock
  create_move ctx stock_out (neg quantity) (average_of balance)
  update_stock ctx (set_quantity (on_hand_of balance -ℤ quantity))
  pure (record { unit_cost = average_of balance; total_cost = average_of balance *ℤ quantity })

-- What `recordAdjustment` writes for a difference that is not 0; the value is in units of 10^-8.
unfoldable pub adjust_stock : StockMoveContext → Quantity → Quantity → Tx Db Amount
adjust_stock ctx delta counted_quantity = do
  balance ← read_balance ctx
  create_move ctx adjustment delta (average_of balance)
  save_stock (new_balance ctx counted_quantity (average_of balance))
      (set_quantity (on_hand_of balance +ℤ delta))
  pure (delta *ℤ average_of balance)

-- `recordAdjustment`
unfoldable pub record_adjustment : StockMoveContext → Quantity → Quantity → Tx Db Amount
record_adjustment ctx system_quantity counted_quantity =
    let delta = counted_quantity -ℤ system_quantity in
    let adjusted = adjust_stock ctx delta counted_quantity in
    if is_zero delta then pure (pos 0) else adjusted
