-- ===== src/Inventory/Stock/History.antt =====
-- Sequences of the stock operations that commit.
use advanced_accountancy.Prelude.{◌≡◌}
use advanced_accountancy.Tx.{ok}
use advanced_accountancy.Tx.Keeps.{Holds→}
use advanced_accountancy.Schema.{Quantity, Amount, Db}
use advanced_accountancy.Inventory.{
  StockMoveContext, Fraction, IssueCost, record_stock_in, record_stock_out, record_adjustment,
}
use advanced_accountancy.Inventory.Stock.{StockAgrees}
use advanced_accountancy.Inventory.Stock.Steps.{
  CountedFrom, record_stock_in-Agrees, record_stock_out-Agrees, record_adjustment-Agrees,
}

pub data StockHistory (s : Db) : Db → Type 0 where
  start : StockHistory s s
  received :
      {t u : Db}
      → StockHistory s t
      → (ctx : StockMoveContext) (quantity unit_cost : Quantity) (cost : Fraction)
      → record_stock_in ctx quantity unit_cost t ≡ ok (cost, u)
      → StockHistory s u
  delivered :
      {t u : Db}
      → StockHistory s t
      → (ctx : StockMoveContext) (quantity : Quantity) (cost : IssueCost)
      → record_stock_out ctx quantity t ≡ ok (cost, u)
      → StockHistory s u
  adjusted :
      {t u : Db}
      → StockHistory s t
      → (ctx : StockMoveContext) (system counted : Quantity) (value : Amount)
      → CountedFrom ctx system t
      → record_adjustment ctx system counted t ≡ ok (value, u)
      → StockHistory s u

-- After any history of committed stock operations that begins in agreement, and in which a product
-- without a balance row is only counted from a system quantity of 0, every product has on hand, in
-- every warehouse, the sum of its moves there.
pub StockHistory-Agrees : {s t : Db} → StockHistory s t → StockAgrees s → StockAgrees t
StockHistory-Agrees start h = h
StockHistory-Agrees (received past ctx q c cost run) h =
    (record_stock_in-Agrees ctx q c).at _ (StockHistory-Agrees past h) cost _ run
StockHistory-Agrees (delivered past ctx q cost run) h =
    (record_stock_out-Agrees ctx q).at _ (StockHistory-Agrees past h) cost _ run
StockHistory-Agrees (adjusted past ctx system counted value from run) h =
    Holds→ StockAgrees (record_adjustment ctx system counted _) value _ run
      (record_adjustment-Agrees ctx system counted _ from (StockHistory-Agrees past h))
