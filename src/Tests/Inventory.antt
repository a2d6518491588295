-- ===== src/Tests/Inventory.antt =====
-- The stock theorems at one product.
use advanced_accountancy.Prelude.{◌≡◌, refl, true, ◌⊎◌}
use advanced_accountancy.Prelude.Int.{pos, neg, ◌+ℤ◌, ◌-ℤ◌, ◌*ℤ◌, ltb_ℤ, abs}
use advanced_accountancy.Tx.{ok, err, insufficient_stock, ◌>>=◌}
use advanced_accountancy.Schema.{Db, empty_db}
use advanced_accountancy.Inventory.{
  StockMoveContext, Fraction, IssueCost, on_hand_of, read_balance, create_move, upsert_stock,
  stored_cost, blended_cost, save_stock, update_stock, record_stock_in, record_stock_out,
  adjust_stock, record_adjustment,
}
use advanced_accountancy.Inventory.Stock.{StockAgrees, balance_at}
use advanced_accountancy.Inventory.Stock.Issue.{Issued, record_stock_out-Issued}
use advanced_accountancy.Inventory.Stock.History.{
  StockHistory, start, received, delivered, StockHistory-Agrees,
}
use advanced_accountancy.Tests.Fixture.{committed}

abbrev pub shelf : StockMoveContext
shelf = record {
  company_id = 1;
  warehouse_id = 61;
  product_id = 71;
  source_module = "INVENTORY";
  source_doc_type = "goods_receipt";
  source_doc_id = 81;
  move_date = 738010;
}

-- What a run of the stock operations computes with.
unfoldable pub stock_runs : Unit {0}
unfolding record_stock_in record_stock_out record_adjustment adjust_stock read_balance create_move
    upsert_stock stored_cost blended_cost save_stock update_stock abs neg ◌+ℤ◌ ◌-ℤ◌ ◌*ℤ◌ ◌>>=◌
stock_runs = tt

-- 10 at 2.50, then 4 out.
abbrev after_in : Fraction × Db
unfolding stock_runs
after_in =
    committed (record_stock_in shelf (pos 100000) (pos 25000) empty_db)
      (record { numerator = pos 0; denominator = 1 }) empty_db

in_runs : record_stock_in shelf (pos 100000) (pos 25000) empty_db ≡ ok after_in
unfolding stock_runs
in_runs = refl

abbrev after_out : IssueCost × Db
unfolding stock_runs
after_out =
    committed (record_stock_out shelf (pos 40000) after_in.1)
      (record { unit_cost = pos 0; total_cost = pos 0 }) empty_db

out_runs : record_stock_out shelf (pos 40000) after_in.1 ≡ ok after_out
unfolding stock_runs
out_runs = refl

empty_db-StockAgrees : StockAgrees empty_db
empty_db-StockAgrees w p = refl

stock_history : StockHistory empty_db after_out.1
stock_history =
    delivered (received start shelf (pos 100000) (pos 25000) after_in.0 in_runs) shelf (pos 40000)
      after_out.0 out_runs

StockHistory-Agrees_example : StockAgrees after_out.1
StockHistory-Agrees_example = StockHistory-Agrees stock_history empty_db-StockAgrees

record_stock_out-Issued_example :
    ((ltb_ℤ (on_hand_of (balance_at 61 71 after_in.1)) (pos 40000) ≡ true)
      × (record_stock_out shelf (pos 40000) after_in.1 ≡ err insufficient_stock))
    ⊎ ((cost : IssueCost) × (t : Db) × (record_stock_out shelf (pos 40000) after_in.1
          ≡ ok (cost, t))
        × Issued shelf (pos 40000) after_in.1 t cost)
record_stock_out-Issued_example = record_stock_out-Issued shelf (pos 40000) after_in.1 refl
